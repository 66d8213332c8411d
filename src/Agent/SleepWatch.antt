-- ===== src/Agent/SleepWatch.antt =====
-- src/agent/sleep-watch.ts: startSleepWatch on Linux. A text is the list of its code points; the
-- process and its timer are events, and a call of `onSleep` is counted. What the log says is left out.
pub mod Runs
mod Tests
use Prim.Native.Char.{code}
use mathlib.Core.List.{reverse}
use abracadabra.Common.{
  ℕ, zero, suc, ◌+◌, ◌-◌, ◌==◌, leb, ltb, String, Bool, true, false, ◌&&◌, ◌||◌, not, if◌then◌else◌,
  Option, none, some, is_some, List, [], ◌∷◌, ◌++◌, length,
}
use abracadabra.Common.Texts.{is_space}

abbrev pub Line : Type 0
Line = List ℕ

abbrev pub codes : String → Line
codes String.[] = []
codes (String.◌∷◌ c s) = code c ∷ codes s

abbrev restart_limit : ℕ
restart_limit = 5

abbrev pub max_line_buf : ℕ
max_line_buf = 65536

-- What a start of a child comes to: no program to start, or `spawn` throws, or a child.
pub data Spawn : Type 0 where
  unavailable spawned : Spawn

pub record SleepWatch : Type 0 where
  pub stopped : Bool
  pub child : Bool
  pub restart_timer : Bool
  pub restart_count : ℕ
  pub line_buf : Line
  pub expects_boolean : Bool
  -- how often `onSleep` was called, and how many children were started
  pub sleeps : ℕ
  pub started : ℕ

-- What is left of the text after this word, or after its spaces.
unfoldable pub after_word : Line → Line → Option Line
after_word [] s = some s
after_word (c ∷ w) [] = none
after_word (c ∷ w) (d ∷ s) = let rest = after_word w s in if c == d then rest else none

unfoldable pub skip_spaces : Line → Line
skip_spaces [] = []
skip_spaces (c ∷ s) = let rest = skip_spaces s in if is_space c then rest else c ∷ s

unfoldable pub includes : Line → Line → Bool
includes word [] = is_some (after_word word [])
includes word (c ∷ s) = is_some (after_word word (c ∷ s)) || includes word s

abbrev comma : Line → Line
comma [] = []
comma (c ∷ s) = if c == b',' then s else c ∷ s

abbrev closes : Line → Bool
closes [] = false
closes (c ∷ s) = c == b')'

abbrev closes_after : Option Line → Bool
closes_after none = false
closes_after (some s) = closes (skip_spaces (comma (skip_spaces s)))

-- `/\(\s*word\s*,?\s*\)/`
unfoldable pub in_brackets : Line → Line → Bool
unfolding after_word skip_spaces
in_brackets word [] = false
in_brackets word (c ∷ s) =
    (c == b'(' && closes_after (after_word word (skip_spaces s))) || in_brackets word s

unfoldable pub trim : Line → Line
unfolding skip_spaces
trim s = reverse (skip_spaces (reverse (skip_spaces s)))

abbrev is_word : ℕ → Bool
is_word c =
    (leb b'a' c && leb c b'z')
    || (leb b'A' c && leb c b'Z')
    || (leb b'0' c && leb c b'9')
    || c == b'_'

abbrev ends_word : Option Line → Bool
ends_word none = false
ends_word (some []) = true
ends_word (some (c ∷ s)) = not (is_word c)

abbrev spaced : Line → Option Line → Bool
spaced word none = false
spaced word (some []) = false
spaced word (some (c ∷ s)) = is_space c && ends_word (after_word word (skip_spaces s))

-- `/^boolean\s+word\b/`, which `boolean word` matches too.
unfoldable pub is_boolean : Line → Line → Bool
unfolding after_word skip_spaces
is_boolean word s = spaced word (after_word (codes "boolean") s)

abbrev pub on_sleep : SleepWatch → SleepWatch
on_sleep w = record w { expects_boolean = false; sleeps = w.sleeps + 1 }

unfoldable pub handle_line : Line → SleepWatch → SleepWatch
handle_line line w =
    if w.stopped
    then w
    else if includes (codes "PrepareForSleep") line && in_brackets (codes "true") line
    then on_sleep w
    else if includes (codes "PrepareForSleep") line && in_brackets (codes "false") line
    then record w { expects_boolean = false }
    else if includes (codes "member=PrepareForSleep") line
        || (includes (codes "PrepareForSleep") line && includes (codes "interface=") line)
    then record w { expects_boolean = true }
    else if w.expects_boolean && is_boolean (codes "true") (trim line)
    then on_sleep w
    else if w.expects_boolean && is_boolean (codes "false") (trim line)
    then record w { expects_boolean = false }
    else w

-- The loop of `onStdout`: `line` is what has been read of the line.
unfoldable pub take_lines : (line rest : Line) → SleepWatch → SleepWatch
take_lines line [] w = record w { line_buf = line }
take_lines line (c ∷ rest) w = elim (c == 10) [
  | true ↦ take_lines [] rest (handle_line line w)
  | false ↦ take_lines (line ++ c ∷ []) rest w
]

abbrev drop : ℕ → Line → Line
drop zero s = s
drop (suc n) [] = []
drop (suc n) (c ∷ s) = drop n s

-- `lineBuf.slice(-MAX_LINE_BUF)`
unfoldable pub keep_last : ℕ → Line → Line
keep_last n s = if ltb n (length s) then drop (length s - n) s else s

unfoldable pub on_stdout : Line → SleepWatch → SleepWatch
on_stdout chunk w =
    if w.stopped then w else take_lines [] (keep_last max_line_buf (w.line_buf ++ chunk)) w

unfoldable pub start_child : Spawn → SleepWatch → SleepWatch
start_child unavailable w = record w { line_buf = []; expects_boolean = false }
start_child spawned w = record w {
  line_buf = [];
  expects_boolean = false;
  child = true;
  started = w.started + 1;
}

unfoldable pub schedule_restart : SleepWatch → SleepWatch
schedule_restart w =
    if leb restart_limit w.restart_count
    then w
    else record w { restart_timer = true; restart_count = w.restart_count + 1 }

unfoldable pub stop : SleepWatch → SleepWatch
stop w = record w { stopped = true; restart_timer = false; child = false }

pub data Event : Type 0 where
  stdout : Line → Event
  -- the child ends, or could not run
  exits fails : Event
  restarts : Spawn → Event

-- What an earlier child wrote can still come, since its end leaves the listener of its output.
unfoldable pub step : Event → SleepWatch → SleepWatch
unfolding start_child schedule_restart
step (stdout chunk) w = on_stdout chunk w
step exits w = if w.child && not w.stopped then schedule_restart (record w { child = false }) else w
step fails w = if w.child && not w.stopped then record w { child = false } else w
step (restarts s) w =
    if w.restart_timer && not w.stopped
    then start_child s (record w { restart_timer = false })
    else w

abbrev pub new_watch : SleepWatch
new_watch = record {
  stopped = false;
  child = false;
  restart_timer = false;
  restart_count = 0;
  line_buf = [];
  expects_boolean = false;
  sleeps = 0;
  started = 0;
}

unfoldable pub start_sleep_watch : Spawn → SleepWatch
unfolding start_child
start_sleep_watch s = start_child s new_watch

unfoldable pub run : List Event → SleepWatch → SleepWatch
unfolding step
run [] w = w
run (e ∷ es) w = run es (step e w)

-- ===== src/Agent/SleepWatch/Runs.antt =====
-- src/agent/sleep-watch.ts: the runs of a watch.
use abracadabra.Common.{
  ℕ, ◌+◌, ◌≤◌, ◌==◌, Bool, false, ◌&&◌, ◌≡◌, refl, ◌∙◌, ap, List, [], ◌∷◌, ◌++◌, arith, inl, inr,
  Bool-cases, if◌then◌else◌,
}
use abracadabra.Agent.SleepWatch.{
  Line, Spawn, spawned, unavailable, SleepWatch, handle_line, take_lines, keep_last, max_line_buf,
  on_stdout, stop, Event, stdout, exits, fails, restarts, step, start_sleep_watch, run,
}

-- What a child writes starts no other.
abbrev SameChild : SleepWatch → SleepWatch → Type 0
SameChild v w =
    (v.started ≡ w.started)
    × (v.child ≡ w.child)
    × (v.restart_timer ≡ w.restart_timer)
    × (v.restart_count ≡ w.restart_count)

handle_line-SameChild : (line : Line) (w : SleepWatch) → SameChild (handle_line line w) w
unfolding handle_line
handle_line-SameChild line w = ground arith

SameChild-trans : (u v w : SleepWatch) → SameChild u v → SameChild v w → SameChild u w
SameChild-trans u v w a b = (a.0 ∙ b.0, a.1 ∙ b.1, a.2 ∙ b.2, a.3 ∙ b.3)

take_lines-SameChild : (line rest : Line) (w : SleepWatch) → SameChild (take_lines line rest w) w
unfolding take_lines
take_lines-SameChild line [] w = (refl, refl, refl, refl)
take_lines-SameChild line (c ∷ rest) w = elim (Bool-cases (c == 10)) [
  | inl e ↦
      rw (e, take_lines)
        (SameChild-trans (take_lines [] rest (handle_line line w)) (handle_line line w) w
          (take_lines-SameChild [] rest (handle_line line w)) (handle_line-SameChild line w))
  | inr e ↦ rw (e, take_lines) (take_lines-SameChild (line ++ c ∷ []) rest w)
]

on_stdout-SameChild : (chunk : Line) (w : SleepWatch) → SameChild (on_stdout chunk w) w
unfolding on_stdout
on_stdout-SameChild chunk w = elim (Bool-cases w.stopped) [
  | inl e ↦ simp e (refl, refl, refl, refl)
  | inr e ↦ simp e (take_lines-SameChild [] (keep_last max_line_buf (w.line_buf ++ chunk)) w)
]

abbrev pending : Bool → ℕ
pending b = if b then 1 else 0

-- Each restart but the first start was counted, and a child and a timer exclude each other.
record IsCounted (w : SleepWatch) : Type 0 where
  counted : w.started + pending w.restart_timer ≤ 1 + w.restart_count
  limited : w.restart_count ≤ 5
  single : (w.child && w.restart_timer) ≡ false

step-IsCounted : (e : Event) (w : SleepWatch) → IsCounted w → IsCounted (step e w)
unfolding step
step-IsCounted (stdout chunk) w h =
    let s = on_stdout-SameChild chunk w in
    record {
      counted = rw (s.0, s.2, s.3) h.counted;
      limited = rw s.3 h.limited;
      single = rw (s.1, s.2) h.single;
    }
step-IsCounted exits w h = ground arith
step-IsCounted fails w h = ground arith
step-IsCounted (restarts spawned) w h = ground arith
step-IsCounted (restarts unavailable) w h = ground arith

run-IsCounted : (es : List Event) (w : SleepWatch) → IsCounted w → IsCounted (run es w)
unfolding run
run-IsCounted [] w h = h
run-IsCounted (e ∷ es) w h = run-IsCounted es (step e w) (step-IsCounted e w h)

step-stop : (e : Event) (w : SleepWatch) → step e (stop w) ≡ stop w
unfolding step stop on_stdout
step-stop (stdout chunk) w = refl
step-stop exits w = refl
step-stop fails w = refl
step-stop (restarts s) w = refl

run-stop : (es : List Event) (w : SleepWatch) → run es (stop w) ≡ stop w
unfolding run
run-stop [] w = refl
run-stop (e ∷ es) w = ap (run es) (step-stop e w) ∙ run-stop es w

start-IsCounted : (s : Spawn) → IsCounted (start_sleep_watch s)
unfolding start_sleep_watch
start-IsCounted spawned = ground arith
start-IsCounted unavailable = ground arith

-- Whatever happens, a watch starts at most six children, and after `stop` nothing changes any more:
-- no line calls `onSleep`, no child is started, and no timer runs.
pub run_bound :
    (s : Spawn) (es later : List Event)
    → ((run es (start_sleep_watch s)).started ≤ 6)
      × (run later (stop (run es (start_sleep_watch s))) ≡ stop (run es (start_sleep_watch s)))
      × ((stop (run es (start_sleep_watch s))).restart_timer ≡ false)
unfolding stop
run_bound s es later =
    let c = run-IsCounted es (start_sleep_watch s) (start-IsCounted s) in
    (omega (arith, c.counted, c.limited), run-stop later (run es (start_sleep_watch s)), refl)

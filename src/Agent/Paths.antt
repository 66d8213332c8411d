-- ===== src/Agent/Paths.antt =====
-- src/agent/paths.ts: whether the agent is used, its two lock times, and the checks of the directory
-- of its socket. The environment is an argument, a variable that is not set being `none`.
mod Tests
use abracadabra.Common.{
  ℕ, ◌+◌, ◌*◌, ◌/◌, ◌%◌, ◌≤◌, ◌<◌, ◌==◌, leb, String, str_eq, Bool, true, false, ◌&&◌, ◌||◌, not,
  ◌≡◌, ◌↔◌, refl, if◌then◌else◌, Option, none, some, get_or, Result, ok, err, arith, Bool-cases,
  inl, inr,
}
use abracadabra.Common.Texts.{trim}

abbrev pub default_idle_seconds : ℕ
default_idle_seconds = 900

abbrev pub default_max_age_seconds : ℕ
default_max_age_seconds = 28800

-- `process.env.NAME?.trim()`; a missing variable and a blank one are both falsy.
abbrev pub variable : Option String → String
variable raw = trim (get_or raw "")

unfoldable pub is_agent_enabled :
    (flag : Option String) → (platform : String) → (runtime : Option String) → Bool
is_agent_enabled flag platform runtime =
    if str_eq (variable flag) "0"
    then false
    else if str_eq platform "win32"
    then false
    else if str_eq (variable flag) "1"
    then true
    else str_eq platform "linux" && not (str_eq (variable runtime) "")

-- What `Number` makes of a text: nothing finite, a number of at most zero, or a positive number,
-- in thousandths.
pub data Seconds : Type 0 where
  not_finite not_positive : Seconds
  thousandths : ℕ → Seconds

module _ (to_number : String → Seconds) where
  -- `Math.floor` of the number, or the default.
  abbrev pub floor_or : ℕ → Seconds → ℕ
  floor_or default (thousandths n) = if leb n 0 then default else n / 1000
  floor_or default _ = default

  unfoldable pub resolve_idle_seconds : Option String → ℕ
  resolve_idle_seconds raw =
      if str_eq (variable raw) ""
      then default_idle_seconds
      else floor_or default_idle_seconds (to_number (variable raw))

  abbrev pub capped : ℕ → ℕ
  capped n = if leb default_max_age_seconds n then default_max_age_seconds else n

  unfoldable pub resolve_max_age_seconds : Option String → ℕ
  resolve_max_age_seconds raw =
      if str_eq (variable raw) ""
      then default_max_age_seconds
      else capped (floor_or default_max_age_seconds (to_number (variable raw)))

  -- A number of seconds between zero and one.
  abbrev pub IsFraction : Seconds → Type 0
  IsFraction (thousandths n) = (0 < n) × (n < 1000)
  IsFraction _ = ⊥

  floor_or_zero : (d : ℕ) (s : Seconds) → 0 < d → (floor_or d s ≡ 0) ↔ IsFraction s
  floor_or_zero d not_finite h = ((λ e. absurd (omega arith)), (λ e. absurd e))
  floor_or_zero d not_positive h = ((λ e. absurd (omega arith)), (λ e. absurd e))
  floor_or_zero d (thousandths n) h = ground arith

  -- The max age never exceeds 8 hours, and is zero, which switches it off, exactly where the
  -- variable holds a number between zero and one.
  pub resolve_max_age_seconds_lem :
      (raw : Option String)
      → (resolve_max_age_seconds raw ≤ 28800)
        × ((resolve_max_age_seconds raw ≡ 0)
            ↔ ((str_eq (variable raw) "" ≡ false) × IsFraction (to_number (variable raw))))
  unfolding resolve_max_age_seconds
  resolve_max_age_seconds_lem raw = elim (Bool-cases (str_eq (variable raw) "")) [
    | inl e ↦ rw e (omega arith, ((λ f. absurd (omega arith)), (λ f. absurd (cc (f.0)))))
    | inr e ↦
        let z = floor_or_zero 28800 (to_number (variable raw)) (omega arith) in
        rw e (ground arith, ((λ f. (refl, z.0 (ground arith))), (λ f. ground (arith, z.1 f.1))))
  ]

pub data PathError : Type 0 where
  unset : PathError

module _ (resolve : String → String) (join : String → String) where
  -- `join` is `path.join` with "abra" and "agent.sock".
  unfoldable pub resolve_agent_socket_path :
      (override runtime : Option String) → Result PathError String
  resolve_agent_socket_path override runtime =
      if not (str_eq (variable override) "")
      then ok (resolve (variable override))
      else if str_eq (variable runtime) ""
      then err unset
      else ok (join (variable runtime))

pub record Stats : Type 0 where
  pub is_symbolic_link : Bool
  pub is_directory : Bool
  pub uid : ℕ
  pub mode : ℕ

pub data DirError : Type 0 where
  no_uid symlink not_a_directory owner_mismatch bad_mode lstat_failed : DirError

-- The checks of what `lstat` answers; `mode & 0o777 & 0o077` are the six low bits.
unfoldable pub check_stats : Stats → ℕ → Result DirError Unit
check_stats st uid =
    if st.is_symbolic_link
    then err symlink
    else if not st.is_directory
    then err not_a_directory
    else if not (st.uid == uid)
    then err owner_mismatch
    else if not (st.mode % 64 == 0)
    then err bad_mode
    else ok tt

-- What the first `lstat` finds.
pub data Lstat : Type 0 where
  found : Stats → Lstat
  enoent failed : Lstat

-- `made` is what the second `lstat` answers, after `mkdir`.
unfoldable pub ensure_agent_runtime_dir : Lstat → (made : Stats) → Option ℕ → Result DirError Unit
ensure_agent_runtime_dir dir made none = err no_uid
ensure_agent_runtime_dir (found st) made (some uid) = check_stats st uid
ensure_agent_runtime_dir enoent made (some uid) = check_stats made uid
ensure_agent_runtime_dir failed made (some uid) = err lstat_failed

-- A directory that only this user can enter.
pub record IsPrivate (st : Stats) (uid : ℕ) : Type 0 where
  pub no_link : st.is_symbolic_link ≡ false
  pub directory : st.is_directory ≡ true
  pub owner : st.uid ≡ uid
  pub bits : st.mode % 64 ≡ 0

-- The directory that is there is accepted exactly when it is no symbolic link but a directory of
-- this user, with no permission for group or others.
pub ensure_agent_runtime_dir_iff :
    (st made : Stats) (uid : ℕ)
    → (ensure_agent_runtime_dir (found st) made (some uid) ≡ ok tt) ↔ IsPrivate st uid
unfolding ensure_agent_runtime_dir check_stats
ensure_agent_runtime_dir_iff st made uid = (
  (λ h. record {
    no_link = ground arith;
    directory = ground arith;
    owner = ground arith;
    bits = ground arith;
  }),
  (λ p. ground (arith, p.no_link, p.directory, p.owner, p.bits)),
)

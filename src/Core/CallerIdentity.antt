-- ===== src/Core/CallerIdentity.antt =====
-- src/core/caller-identity.ts: which executable a process runs. What the file system answers is a
-- parameter, `none` where it throws.
use abracadabra.Common.{
  leb, String, str_eq, Bool, false, not, ◌||◌, ◌&&◌, if◌then◌else◌, Option, none, some,
}
use abracadabra.Common.Numbers.{Number, nat, is_finite}

pub record CallerIdentity : Type 0 where
  pub exe : String
  pub dev : Number
  pub ino : Number

pub record CallerIdentityFs : Type 0 where
  pub readlink : String → Option String
  pub realpath : String → Option String
  pub stat : String → Option (Number × Number)

abbrev positive : Number → Bool
positive (nat n) = not (leb n 0)
positive _ = false

-- `exe_link` is the path /proc/<pid>/exe, and `deleted` tests for the ending " (deleted)".
module _ (io : CallerIdentityFs) (exe_link : Number → String) (deleted : String → Bool) where
  unfoldable pub identity_of_exe : String → Option CallerIdentity
  identity_of_exe exe = if str_eq exe "" then none else elim (io.stat exe) [
    | none ↦ none
    | some (dev, ino) ↦
        if is_finite dev && is_finite ino
        then some (record { exe = exe; dev = dev; ino = ino })
        else none
  ]

  unfoldable pub identity_of_link : String → Option CallerIdentity
  identity_of_link target =
      if str_eq target "" || deleted target
      then none
      else elim (io.realpath target) [ none ↦ none | some exe ↦ identity_of_exe exe ]

  unfoldable pub identity_for_pid : (platform : String) → (pid : Number) → Option CallerIdentity
  unfolding positive
  identity_for_pid platform pid =
      if not (str_eq platform "linux") || not (positive pid)
      then none
      else elim (io.readlink (exe_link pid)) [ none ↦ none | some target ↦ identity_of_link target ]

-- ===== src/Platform/RevealGate.antt =====
-- src/platform/reveal-gate.ts: authorizeReveal, which a secret passes on its way to an MCP or API
-- client. The dependencies that it is given (`deps`) are parameters, each by what it answers; the
-- texts of the messages are left out.
use abracadabra.Common.{
  ℕ, String, str_eq, Bool, true, false, ◌≡◌, ◌↔◌, ◌⊎◌, refl, if◌then◌else◌, Option, none, some,
  Result, ok, err, arith, inl, inr, Bool-cases,
}
use abracadabra.Agent.Grants
use abracadabra.Agent.Grants.{GrantCaller, GrantCheckResult, GrantStore}

pub data RevealVia : Type 0 where
  auth grant : RevealVia

pub record AuthorizeRevealResult : Type 0 where
  pub via : RevealVia
  pub grant_id : Option String

-- What `authenticate` throws, as far as isNoTtyApprovalDenial tells it apart.
pub data AuthError : Type 0 where
  no_tty denied : AuthError

-- What the client of the agent throws: AgentClientError by its code, or another error.
pub data ClientError : Type 0 where
  locked connect timeout unavailable other : ClientError

pub data RevealError : Type 0 where
  refused : AuthError → RevealError
  no_grant agent_locked : RevealError

unfoldable pub locked_or_down : ClientError → Bool
locked_or_down other = false
locked_or_down _ = true

-- The answer of the agent to the check of a grant.
abbrev pub by_grant : Result ClientError GrantCheckResult → Result RevealError AuthorizeRevealResult
by_grant (ok r) =
    if r.granted then ok (record { via = grant; grant_id = r.grant_id }) else err no_grant
by_grant (err e) = if locked_or_down e then err agent_locked else err no_grant

module _ (check : String → GrantCaller → Result ClientError GrantCheckResult)
    (project : String) where
  -- A caller that cannot be looked up is no caller.
  unfoldable pub authorize_caller :
      Result Unit (Option GrantCaller) → Result RevealError AuthorizeRevealResult
  authorize_caller (err e) = err no_grant
  authorize_caller (ok none) = err no_grant
  authorize_caller (ok (some c)) = by_grant (check project c)

  unfoldable pub authorize_reveal :
      (backend : String)
      → Result AuthError Unit
      → Result Unit (Option GrantCaller)
      → Result RevealError AuthorizeRevealResult
  authorize_reveal backend (ok u) caller = ok (record { via = auth; grant_id = none })
  authorize_reveal backend (err denied) caller = err (refused denied)
  authorize_reveal backend (err no_tty) caller =
      if str_eq backend "passphrase" then authorize_caller caller else err (refused no_tty)

abbrev pub is_ok : Result RevealError AuthorizeRevealResult → Bool
is_ok (ok r) = true
is_ok (err e) = false

-- A check that grants to the caller.
pub record Granted (check : String → GrantCaller → Result ClientError GrantCheckResult)
    (project : String) (caller : Result Unit (Option GrantCaller)) : Type 0 where
  pub who : GrantCaller
  pub reply : GrantCheckResult
  pub who_lem : caller ≡ ok (some who)
  pub reply_lem : check project who ≡ ok reply
  pub granted : reply.granted ≡ true

by_grant-ok :
    (r : Result ClientError GrantCheckResult)
    → is_ok (by_grant r) ≡ true
    → (g : GrantCheckResult) × (r ≡ ok g) × (g.granted ≡ true)
by_grant-ok (ok g) h = (g, refl, ground arith)
by_grant-ok (err e) h = ground arith

module _ (check : String → GrantCaller → Result ClientError GrantCheckResult)
    (project : String) where
  authorize_caller-ok :
      (caller : Result Unit (Option GrantCaller))
      → is_ok (authorize_caller check project caller) ≡ true
      → Granted check project caller
  unfolding authorize_caller
  authorize_caller-ok (err e) h = absurd (cc)
  authorize_caller-ok (ok none) h = absurd (cc)
  authorize_caller-ok (ok (some c)) h =
      let g = by_grant-ok (check project c) h in
      record { who = c; reply = g.0; who_lem = refl; reply_lem = g.1; granted = g.2 }

  authorize_caller-Granted :
      (caller : Result Unit (Option GrantCaller))
      → Granted check project caller
      → is_ok (authorize_caller check project caller) ≡ true
  unfolding authorize_caller
  authorize_caller-Granted caller g =
      rw (g.who_lem, authorize_caller, g.reply_lem) (rw g.granted refl)

  -- A reveal is let through exactly when the user approves it, or when there is no terminal to
  -- ask on, the backend is the passphrase, the caller is known and the agent's check grants to it:
  -- another refusal of the user is never overruled by a grant.
  pub authorize_reveal_iff :
      (backend : String) (user : Result AuthError Unit) (caller : Result Unit (Option GrantCaller))
      → (is_ok (authorize_reveal check project backend user caller) ≡ true) ↔ (
          (user ≡ ok tt)
          ⊎ ((user ≡ err no_tty)
              × (str_eq backend "passphrase" ≡ true)
              × Granted check project caller))
  unfolding authorize_reveal
  authorize_reveal_iff backend (ok u) caller = ((λ h. inl refl), (λ h. refl))
  authorize_reveal_iff backend (err denied) caller =
      ((λ h. absurd (cc)), (λ h. absurd (elim h [ inl e ↦ cc | inr g ↦ cc (g.0) ])))
  authorize_reveal_iff backend (err no_tty) caller =
      elim (Bool-cases (str_eq backend "passphrase")) [
        | inl e ↦ rw e (
          (λ h. inr (refl, refl, authorize_caller-ok caller h)),
          (λ h. elim h [ inl f ↦ absurd (cc) | inr g ↦ authorize_caller-Granted caller g.2 ]),
        )
        | inr e ↦
            rw e ((λ h. absurd (cc)), (λ h. absurd (elim h [ inl f ↦ cc | inr g ↦ cc (g.1) ])))
      ]

-- The check of an unlocked agent with this grant store.
abbrev pub agent_check :
    GrantStore → (now : ℕ) → String → GrantCaller → Result ClientError GrantCheckResult
agent_check s now project caller = ok (Grants.check s project caller now).1

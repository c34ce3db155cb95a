-- ===== src/Minion/Access.antt =====
-- Who can change a bridge project through the API.
use cozy_nm.Base.{
  ℕ, ◌≡◌, refl, String, eq_iff, true, false, Option, none, some, arith, is_empty, or_else, ok,
  Result-cases, inl, inr, ◌⊎◌, take_until, nat_eq,
}
use cozy_nm.Bridges.State.{Lib, Files, World, Host}
use cozy_nm.Bridges.Manager.{manager}
use cozy_nm.Minion.Api.{
  MinionConfig, ApiCall, refused, require_bridge_token, compare_digest, behind_space, is_lowered,
  handle, dispatch,
}

-- what an accepted header fulfils
require_bridge_token-ok :
    (config : MinionConfig) (authorization : Option String)
    → require_bridge_token config authorization ≡ ok tt
    → (config.mode ≡ "minion")
      × (is_empty config.bridge_api_token ≡ false)
      × (is_lowered (take_until (nat_eq b' ') (or_else authorization "")) "bearer" ≡ true)
      × (behind_space (or_else authorization "") ≡ config.bridge_api_token)
unfolding require_bridge_token compare_digest
require_bridge_token-ok config authorization h = ground (
  arith,
  eq_iff config.mode "minion",
  eq_iff (behind_space (or_else authorization "")) config.bridge_api_token,
)

manager-ok :
    (mode : String) (found : Option Host) (host : Host)
    → manager mode found ≡ ok host
    → found ≡ some host
unfolding manager
manager-ok mode none host h = absurd (ground arith)
manager-ok mode (some h') host h = ground arith

module _ {C : Type 0} (lib : Lib C) (world after : World C) where
  -- refused without a touch, or answered by the handler for one who knows the token
  abbrev pub Guarded : MinionConfig → Option String → ApiCall → Files C → Type 0
  Guarded config authorization call files =
      ((status : ℕ) × (handle lib world after config authorization call files
          ≡ (refused status, files)))
      ⊎ ((config.mode ≡ "minion")
          × (is_empty config.bridge_api_token ≡ false)
          × (is_lowered (take_until (nat_eq b' ') (or_else authorization "")) "bearer" ≡ true)
          × (behind_space (or_else authorization "") ≡ config.bridge_api_token)
          × ((host : Host) × (config.host ≡ some host)
              × (handle lib world after config authorization call files
                  ≡ dispatch lib world after host call files)))

  -- Either a call is refused and touches nothing, no file and no command; or the program runs as a
  -- minion with a token that is not empty, the header names the scheme bearer in any case of its
  -- letters and holds exactly the token behind its first space, the host may manage bridges, and the
  -- answer is the handler's.
  pub handle-Guarded :
      (config : MinionConfig) (authorization : Option String) (call : ApiCall) (files : Files C)
      → Guarded config authorization call files
  unfolding handle
  handle-Guarded config authorization call files =
      elim (Result-cases (require_bridge_token config authorization)) [
        | inr (s, e) ↦ inl (s, rw e refl)
        | inl (u, e) ↦
            let (m, t, b, s) = require_bridge_token-ok config authorization e in
            elim (Result-cases (manager config.mode config.host)) [
              | inr (x, k) ↦ rw (e, k) (inl (_, refl))
              | inl (host, k) ↦
                  inr
                    (m, t, b, s, (host, manager-ok config.mode config.host host k, rw (e, k) refl))
            ]
      ]

-- ===== src/Head/Admitted.antt =====
-- The head and a minion together: what the head sends is let in where both have the same token.
use Prim.Native.String
use Prim.Native.String.{[], ◌∷◌}
use text.Mathlib.TextLemmas.{cons-append, nil-append}
use cozy_nm.Base.{◌≡◌, sym, ap, ◌∙◌, subst, String, eq_refl, true, false, some, is_empty, ok}
use cozy_nm.Bridges.Manager.{manager}
use cozy_nm.Bridges.State.{Lib, Files, World, Host}
use cozy_nm.Head.BridgeClient.{ClientConfig, headers}
use cozy_nm.Head.Guarded.{headers-ok}
use cozy_nm.Minion.Api.{
  MinionConfig, ApiCall, require_bridge_token, compare_digest, behind_space, is_lowered, is_ascii,
  handle, dispatch,
}

bearer :
    (token : String)
    → String.◌++◌ "Bearer " token ≡ "B" ∷ ("e" ∷ ("a" ∷ ("r" ∷ ("e" ∷ ("r" ∷ (" " ∷ token))))))
bearer token = rw (
  cons-append "B" "earer " token,
  cons-append "e" "arer " token,
  cons-append "a" "rer " token,
  cons-append "r" "er " token,
  cons-append "e" "r " token,
  cons-append "r" " " token,
  cons-append " " [] token,
  nil-append token,
)

require_bridge_token-bearer :
    (config : MinionConfig)
    → config.mode ≡ "minion"
    → is_empty config.bridge_api_token ≡ false
    → is_ascii config.bridge_api_token ≡ true
    → require_bridge_token config (some (String.◌++◌ "Bearer " config.bridge_api_token)) ≡ ok tt
unfolding require_bridge_token behind_space is_lowered compare_digest
require_bridge_token-bearer config m t a =
    rw (bearer config.bridge_api_token, m, t, a, eq_refl config.bridge_api_token)

-- Where a minion that may manage bridges has the token of the head, and the token is one of ASCII
-- characters, each call with the header that the head sends is answered by the handler of the call.
pub handle-headers :
    {C : Type 0} (lib : Lib C) (world after : World C) (client : ClientConfig)
    (config : MinionConfig) (host : Host) (authorization : String) (call : ApiCall)
    (files : Files C)
    → headers client ≡ ok authorization
    → config.bridge_api_token ≡ client.bridge_api_token
    → is_ascii client.bridge_api_token ≡ true
    → config.mode ≡ "minion"
    → config.host ≡ some host
    → handle lib world after config (some authorization) call files
      ≡ dispatch lib world after host call files
unfolding handle manager
handle-headers lib world after client config host authorization call files h same ascii mode found =
    let (full, sent) = headers-ok client authorization h in
    let admitted : require_bridge_token config (some authorization) ≡ ok tt =
      subst (λ a. require_bridge_token config (some a) ≡ ok tt)
        (ap (String.◌++◌ "Bearer ") same ∙ sym sent)
        (require_bridge_token-bearer config mode (subst (λ t. is_empty t ≡ false) (sym same) full)
          (subst (λ t. is_ascii t ≡ true) (sym same) ascii)) in
    rw (admitted, mode, found)

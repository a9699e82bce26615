-- ===== src/Core/Auth.antt =====
-- backend/core/src/auth.rs: whether a failure's reason speaks of credentials. `to_lowercase` is the
-- standard library's, whose table of Unicode case mappings is a parameter.
use Prim.Native.String.{find, len}
use offset_explorer_oxide.Common.{String, Bool, false, ◌||◌, List, [], ◌∷◌, leb}

abbrev pub auth_failure_reasons : List String
auth_failure_reasons =
    "authentication failed" ∷ "authentication error" ∷ "sasl authentication"
    ∷ "invalid username or password" ∷ "unsupported sasl mechanism" ∷ "ssl handshake failed"
    ∷ "certificate verify failed" ∷ []

-- `find` answers one more than the text's length where the fragment does not stand in it.
unfoldable pub any_in : List String → String → Bool
any_in [] why = false
any_in (fragment ∷ fragments) why = leb (find why fragment) (len why) || any_in fragments why

unfoldable pub is_auth_failure_reason : (String → String) → String → Bool
unfolding any_in
is_auth_failure_reason to_lowercase why = any_in auth_failure_reasons (to_lowercase why)

-- ===== src/FieldCrypto/Policy.antt =====
-- internal/infrastructure/fieldcrypto: policy.go, and of settings.go the policy and the texts that
-- configure it. The regular expression of a path is a list of pieces, and `matches` is what regexp
-- does with it; strings.EqualFold compares the letters A to Z without regard to case.
pub mod Segments
pub mod Defaults
use Prim.Native.Char.{Char, code}
use Prim.Native.String.{[], ◌∷◌}
use bff_api_go_collection_ac.Base.{
  ℕ, String, Bool, true, false, not, ◌&&◌, ◌||◌, ◌==◌, Option, none, some, ◌++◌, eqb, map,
  if◌then◌else◌,
}
use mathlib.Core.List.{List}
use mathlib.Core.List
use bff_api_go_collection_ac.Base.Texts.{trim_space, split, to_lower, to_upper}

-- A character as it stands, or [^/]+.
pub data Piece : Type 0 where
  lit : Char → Piece
  segment : Piece

-- The text goes on with [^/}]* and a brace.
abbrev pub closes : String → Bool
closes [] = false
closes (c ∷ s) = if eqb (code c) b'}' then true else not (eqb (code c) b'/') && closes s

-- A token {[^/}]+} starts behind this brace.
abbrev pub is_token : String → Bool
is_token [] = false
is_token (c ∷ s) = not (eqb (code c) b'}') && not (eqb (code c) b'/') && closes s

-- compilePathPattern; inside a token the text is skipped up to its brace.
unfoldable pub compile_from : (inside : Bool) → String → List Piece
compile_from inside [] = List.[]
compile_from true (c ∷ s) = compile_from (not (eqb (code c) b'}')) s
compile_from false (c ∷ s) =
    let token = eqb (code c) b'{' && is_token s in
    List.◌∷◌ (if token then segment else lit c) (compile_from token s)

abbrev pub compile_path_pattern : String → List Piece
compile_path_pattern path = compile_from false path

-- matcher.MatchString: a segment takes one character, and then stops or goes on.
unfoldable pub matches : List Piece → String → Bool
matches List.[] [] = true
matches List.[] (c ∷ s) = false
matches (List.◌∷◌ p ps) [] = false
matches (List.◌∷◌ (lit d) ps) (c ∷ s) = eqb (code c) (code d) && matches ps s
matches (List.◌∷◌ segment ps) (c ∷ s) =
    not (eqb (code c) b'/') && (matches ps s || matches (List.◌∷◌ segment ps) s)

pub record CryptoRule : Type 0 where
  pub method : String
  pub path : String
  pub decrypt_request : Bool
  pub encrypt_response : Bool

-- FromEntries makes the rule; the pieces are made again for each match.
abbrev pub from_entry : CryptoRule → CryptoRule
from_entry r = record r { method = to_upper r.method }

abbrev pub from_entries : List CryptoRule → List CryptoRule
from_entries = map from_entry

unfoldable pub rule_matches : CryptoRule → (method path : String) → Bool
rule_matches r method path =
    to_lower method == to_lower r.method && matches (compile_path_pattern r.path) path

-- Resolve: the first rule that matches.
unfoldable pub resolve_rule : List CryptoRule → (method path : String) → Option CryptoRule
resolve_rule List.[] method path = none
resolve_rule (List.◌∷◌ r rs) method path =
    if rule_matches r method path then some r else resolve_rule rs method path

-- parseEndpoints
abbrev entry_of : List String → List CryptoRule
entry_of (List.◌∷◌ method (List.◌∷◌ path (List.◌∷◌ decrypt (List.◌∷◌ encrypt List.[])))) =
    List.◌∷◌
      (record {
        method = trim_space method;
        path = trim_space path;
        decrypt_request = trim_space decrypt == "decrypt";
        encrypt_response = trim_space encrypt == "encrypt";
      })
      List.[]
entry_of parts = List.[]

unfoldable pub entries_of : List String → List CryptoRule
entries_of List.[] = List.[]
entries_of (List.◌∷◌ chunk chunks) =
    let rest = entries_of chunks in
    let trimmed = trim_space chunk in
    if trimmed == "" then rest else entry_of (split b':' trimmed) ++ rest

unfoldable pub parse_endpoints : String → List CryptoRule
unfolding entries_of
parse_endpoints raw = entries_of (split b';' raw)

abbrev rule : (method path : String) → (decrypt encrypt : Bool) → CryptoRule
rule method path decrypt encrypt = record {
  method = method;
  path = path;
  decrypt_request = decrypt;
  encrypt_response = encrypt;
}

abbrev pub default_entries : List CryptoRule
default_entries = List.◌∷◌ (rule "PUT" "/api/v1/notifications/devices/current" true false) (
    List.◌∷◌ (rule "PATCH" "/api/v1/collections/escalations/{escalationId}/status" false false) (
      List.◌∷◌ (rule "PATCH" "/api/v1/collections/escalations/{escalation_id}/status" false false) (
        List.◌∷◌ (rule "PATCH" "/api/v1/collections/escalations/{id}/status" false false) (
          List.◌∷◌ (rule "GET" "/api/v1/collections/agent-performance/ranking" false true) (
            List.◌∷◌ (rule "GET" "/api/v1/collections/agent-performance/workload" false true) (
              List.◌∷◌
                (rule "GET" "/api/v1/collections/agent-performance/operations-summary" false true)
                (List.◌∷◌ (rule "GET" "/api/v1/collections/agent-performance/goals" false true) (
                  List.◌∷◌ (rule "GET" "/api/v1/collections/agent-performance/report" false true) (
                    List.◌∷◌ (rule "GET" "/api/v1/collections/agent-performance/kpis" false true)
                      List.[])))))))))

-- CryptoSettings.Policy: the entries of the configuration stand behind those of the code.
abbrev pub policy : (endpoints : List CryptoRule) → List CryptoRule
policy endpoints = from_entries (default_entries ++ endpoints)

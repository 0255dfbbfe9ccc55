-- ===== src/Triggers/ErrorName.antt =====
-- internal/engine/triggers/errorname.go: `UpstreamErrorName`.
pub mod Laws
use astrate.Base.{◌-◌, String, Bool, Option, none, some, List, [], ◌∷◌, str_eq, if◌then◌else◌, any}

-- `upstreamErrorNames`.
abbrev pub upstream_error_names : List String
upstream_error_names =
    "write_on_server_owned_interface" ∷ "invalid_interface" ∷ "invalid_path" ∷ "mapping_not_found"
    ∷ "interface_loading_failed" ∷ "ambiguous_path" ∷ "undecodable_bson_payload"
    ∷ "unexpected_value_type" ∷ "value_size_exceeded" ∷ "unexpected_object_key"
    ∷ "invalid_introspection" ∷ "unexpected_control_message" ∷ "device_session_not_found"
    ∷ "resend_interface_properties_failed" ∷ "empty_cache_error" ∷ []

-- `upstreamFallback`.
abbrev pub upstream_fallback : String
upstream_fallback = "interface_loading_failed"

-- `astrateToUpstream`, in which a key stands once.
abbrev pub astrate_to_upstream : List (String × String)
astrate_to_upstream =
    ("realm_unknown", "device_session_not_found")
    ∷ ("device_unknown", "device_session_not_found")
    ∷ ("malformed_topic", "invalid_path")
    ∷ ("interface_not_in_introspection", "interface_loading_failed")
    ∷ ("interface_not_installed", "interface_loading_failed")
    ∷ ("ownership_violation", "write_on_server_owned_interface")
    ∷ ("unexpected_path", "mapping_not_found")
    ∷ ("introspection_invalid", "invalid_introspection")
    ∷ ("control_unknown", "unexpected_control_message")
    ∷ ("control_payload_invalid", "unexpected_control_message")
    ∷ ("too_large", "value_size_exceeded")
    ∷ ("unknown_format", "undecodable_bson_payload")
    ∷ ("malformed", "undecodable_bson_payload")
    ∷ ("no_value", "unexpected_value_type")
    ∷ ("bad_timestamp", "unexpected_value_type")
    ∷ ("type_mismatch", "unexpected_value_type")
    ∷ ("value_too_large", "value_size_exceeded")
    ∷ ("bad_object", "unexpected_object_key")
    ∷ ("missing_required", "unexpected_object_key")
    ∷ ("unset_not_allowed", "unexpected_value_type")
    ∷ []

-- upstreamSet[reason]
abbrev pub has_name : List String → String → Bool
has_name names reason = any (λ n. str_eq n reason) names

-- astrateToUpstream[reason]
abbrev pub lookup_reason : List (String × String) → String → Option String
lookup_reason [] reason = none
lookup_reason (p ∷ ps) reason = if str_eq p.0 reason then some p.1 else lookup_reason ps reason

-- `UpstreamErrorName`.
unfoldable pub upstream_error_name : String → String
upstream_error_name reason =
    if has_name upstream_error_names reason
    then reason
    else elim (lookup_reason astrate_to_upstream reason) [ some m ↦ m | none ↦ upstream_fallback ]

-- ===== src/Tests/Devices.antt =====
-- The theorems on topics, introspections, tokens and payloads at sample inputs.
use astrate.Base.{
  ◌≤◌, ◌≡◌, refl, ◌≢◌, ◌↔◌, ◌⊎◌, true, false, ◌&&◌, none, some, [], ◌∷◌, ◌++◌, leb, if◌then◌else◌,
  length, Any, ok, Bytes, codes, eq_bytes, contains_byte, contains_any, cut, split_on, cut_prefix,
}
use astrate.Schema.Types.{device, server}
use astrate.Broker.Acl.{max_topic_bytes, OwnershipFn, may_write, check_acl}
use astrate.Broker.Acl.Laws.{Publishes, IsControl, check_acl-write}
use astrate.Engine.Topics.{split_device_topic, match_from, match_interface}
use astrate.Engine.Topics.Split.{split_device_topic_iff}
use astrate.Engine.Topics.Longest.{IsLongest, NoneDeclared, match_interface-IsLongest}
use astrate.Engine.Introspection.{
  InterfaceVersion, Introspection, digits, atoi, declare, parse_entry, parse_entries,
  parse_introspection,
}
use astrate.Engine.Introspection.Laws.{Declares, parse_introspection-Declares}
use astrate.Auth.Claims.{
  app_engine, RegexpCompile, AstarteClaims, new_token, authorizes, authorizes_channel,
}
use astrate.Auth.Claims.Laws.{Grants, authorizes_iff}
use astrate.Triggers.ErrorName.{upstream_error_names, has_name, upstream_error_name}
use astrate.Triggers.ErrorName.Laws.{upstream_error_name-closed}
use astrate.Payload.Sniff.{bson, json, detect_format}
use astrate.Payload.Sniff.Laws.{OpensObject, detect_format-text}

abbrev sample_ownership : OwnershipFn
sample_ownership iface = if leb (length iface) 9 then some device else some server

abbrev base : Bytes
base = codes "home/2TBn-jNESuuHamE2Zo1anA"

abbrev topic : Bytes
topic = base ++ codes "/a.Sensors/t"

topic-allowed : check_acl base topic true sample_ownership ≡ true
unfolding eq_bytes cut cut_prefix may_write check_acl
topic-allowed = refl

check_acl_example :
    (length topic ≤ max_topic_bytes)
    × ((topic ≡ base)
        ⊎ ((rest : Bytes) × (topic ≡ base ++ b'/' ∷ rest)
            × (IsControl rest ⊎ Publishes rest sample_ownership)))
check_acl_example = check_acl-write base topic sample_ownership topic-allowed

abbrev encoded_id : Bytes
encoded_id = codes "2TBn-jNESuuHamE2Zo1anA"

split_device_topic_example :
    (split_device_topic topic (codes "home") encoded_id ≡ some (codes "a.Sensors/t")) ↔ (
      ((topic ≡ codes "home" ++ b'/' ∷ encoded_id) × (codes "a.Sensors/t" ≡ []))
      ⊎ (topic ≡ codes "home" ++ b'/' ∷ (encoded_id ++ b'/' ∷ codes "a.Sensors/t")))
split_device_topic_example =
    split_device_topic_iff topic (codes "home") encoded_id (codes "a.Sensors/t") refl

abbrev version : InterfaceVersion
version = record { major = 1; minor = 20 }

abbrev declared : Introspection
declared k = if eq_bytes k (codes "a.B") then some version else none

sample-parsed : parse_introspection (codes "a.B:1:20") ≡ ok declared
unfolding cut split_on contains_byte contains_any digits atoi declare parse_entry parse_entries
    parse_introspection
sample-parsed = refl

a_b-declared : declared (codes "a.B") ≡ some version
unfolding eq_bytes
a_b-declared = refl

parse_introspection_example :
    Any (Declares (codes "a.B") version) (split_on b';' (codes "a.B:1:20"))
parse_introspection_example =
    parse_introspection-Declares (codes "a.B:1:20") declared (codes "a.B") version sample-parsed
      a_b-declared

-- Patterns without operators: the anchored text matches itself.
abbrev plain_regexp : RegexpCompile
plain_regexp pattern = some (λ s. eq_bytes pattern (b'^' ∷ s ++ b'$' ∷ []))

abbrev sample_claims : AstarteClaims
sample_claims = record {
  expires_at = none;
  strings = λ claim. codes "GET::devices" ∷ codes "JOIN::room" ∷ [];
}

authorizes_example :
    ((authorizes (new_token plain_regexp sample_claims) app_engine (codes "GET") (codes "devices")
        ≡ true)
      ↔ Any
          (Grants plain_regexp (λ g. g.verb (codes "GET") && g.path (codes "devices")))
          (codes "GET::devices" ∷ codes "JOIN::room" ∷ []))
    × ((authorizes_channel (new_token plain_regexp sample_claims) (codes "GET") (codes "devices")
          ≡ true)
        ↔ Any
            (Grants plain_regexp
              (λ g. eq_bytes g.verb_literal (codes "GET") && g.path (codes "devices")))
            (codes "GET::devices" ∷ codes "JOIN::room" ∷ []))
authorizes_example =
    authorizes_iff plain_regexp sample_claims app_engine (codes "GET") (codes "devices")

no_zero : contains_byte 0 (codes "  {}") ≡ false
unfolding contains_byte
no_zero = refl

detect_format_example :
    ((detect_format (codes "  {}") ≡ json) ↔ OpensObject (codes "  {}"))
    × (detect_format (codes "  {}") ≢ bson)
detect_format_example = detect_format-text (codes "  {}") no_zero

upstream_error_name_example :
    (has_name upstream_error_names (upstream_error_name "malformed") ≡ true)
    × (has_name upstream_error_names "malformed" ≡ true
        → upstream_error_name "malformed" ≡ "malformed")
    × (upstream_error_name (upstream_error_name "malformed") ≡ upstream_error_name "malformed")
upstream_error_name_example = upstream_error_name-closed "malformed"

match_interface_example :
    (match_from declared 8 (codes "a.B/x/y") 7 ≢ none)
    × ((name path : Bytes) (v : InterfaceVersion)
        → match_interface declared (codes "a.B/x/y") ≡ some (name, path, v)
        → IsLongest declared (codes "a.B/x/y") name path v)
    × ((match_interface declared (codes "a.B/x/y") ≡ none)
        ↔ NoneDeclared declared (codes "a.B/x/y"))
match_interface_example = match_interface-IsLongest declared (codes "a.B/x/y")

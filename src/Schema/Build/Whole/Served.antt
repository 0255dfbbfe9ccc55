-- ===== src/Schema/Build/Whole/Served.antt =====
-- What parsing, compiling and matching promise together.
use astrate.Base.{◌≡◌, ◌↔◌, Option, some, ◌∷◌, Any, ok, Bytes}
use astrate.Schema.Definition.{Interface, CompiledMapping}
use astrate.Schema.Trie.{match}
use astrate.Schema.Compile.{Resolver, CompiledInterface, compile}
use astrate.Schema.Compile.Meaning.{Serves, match-compile_iff}
use astrate.Schema.Build.Whole.{Codec, parse_interface}
use astrate.Schema.Build.Whole.Rules.{parse_interface-IsInterface}

-- For an interface that `ParseInterface` accepts and `Compile` compiles, `Match` on a path that
-- begins with a slash answers `cm` exactly if some mapping of the interface has an endpoint that fits
-- the path and compiles to `cm`.
pub match-compile-parse_interface_iff :
    (codec : Codec) (text : Bytes) (iface : Interface) (ids : Option Resolver)
    (ci : CompiledInterface) (rest : Bytes) (cm : CompiledMapping)
    → parse_interface codec text ≡ ok iface
    → compile (some iface) ids ≡ ok ci
    → (match (some ci.trie) (b'/' ∷ rest) ≡ some cm) ↔ Any (Serves ids rest cm) iface.mappings
match-compile-parse_interface_iff codec text iface ids ci rest cm parsed compiled =
    match-compile_iff iface ids ci rest cm compiled
      (parse_interface-IsInterface codec text iface parsed).distinct

-- ===== src/Triggers/Policy/Overlap.antt =====
-- internal/engine/triggers/policy.go: `checkHandlersDisjoint`, with its table of claimed codes.
pub mod Table
pub mod Laws
use astrate.Base.{
  ℕ, zero, suc, ◌-◌, Bool, true, false, Option, none, some, List, [], ◌∷◌, leb, if◌then◌else◌,
  get_elem?, Result, ok, err, ◌>>=◌, ◌>>◌, ℤ, pos, negsuc, str_eq, codes,
}
use astrate.Triggers.Policy.Handler.{
  On, keyword, explicit, Handler, PolicyError, overlap, index_panic,
}

-- for c := lo; len > 0; c++ { own = append(own, c) }
unfoldable pub codes_from : ℕ → ℕ → List ℤ
codes_from lo zero = []
codes_from lo (suc n) = pos lo ∷ codes_from (suc lo) n

-- The codes that one handler claims, as `checkHandlersDisjoint` lists them.
unfoldable pub own_codes : On → List ℤ
own_codes (keyword k) =
    let hi = (if str_eq k "client_error" then 499 else 599) in
    let lo = (if str_eq k "server_error" then 500 else 400) in codes_from lo (suc hi - lo)
own_codes (explicit codes) = codes

-- `claimed[c-400]`; `none` is the panic of an index out of range.
abbrev pub slot : ℤ → Option ℕ
slot (pos n) = if leb 400 n then some (n - 400) else none
slot (negsuc n) = none

unfoldable pub is_claimed : List Bool → ℤ → Option Bool
is_claimed claimed c = elim (slot c) [ none ↦ none | some i ↦ get_elem? claimed i ]

unfoldable pub set_true : List Bool → ℕ → List Bool
set_true [] i = []
set_true (b ∷ bs) zero = true ∷ bs
set_true (b ∷ bs) (suc i) = b ∷ set_true bs i

-- The first inner loop: stop at a code that is taken.
unfoldable pub check_free : List Bool → List ℤ → Result PolicyError (Unit {0})
check_free claimed [] = ok tt
check_free claimed (c ∷ cs) =
    let rest = check_free claimed cs in
    elim (is_claimed claimed c) [
      | none ↦ err index_panic
      | some true ↦ err overlap
      | some false ↦ rest
    ]

-- `claimed[c-400] = true`. An index out of range was met by the first loop.
unfoldable pub take_code : List Bool → ℤ → List Bool
take_code claimed c = elim (slot c) [ none ↦ claimed | some i ↦ set_true claimed i ]

-- The second inner loop: take the codes.
unfoldable pub take_codes : List Bool → List ℤ → List Bool
take_codes claimed [] = claimed
take_codes claimed (c ∷ cs) = take_codes (take_code claimed c) cs

unfoldable pub check_from : List Bool → List Handler → Result PolicyError (Unit {0})
check_from claimed [] = ok tt
check_from claimed (h ∷ hs) =
    let own = own_codes h.on in
    let rest = check_from (take_codes claimed own) hs in check_free claimed own >> rest

unfoldable pub none_claimed : ℕ → List Bool
none_claimed zero = []
none_claimed (suc n) = false ∷ none_claimed n

-- `checkHandlersDisjoint`.
unfoldable pub check_handlers_disjoint : List Handler → Result PolicyError (Unit {0})
check_handlers_disjoint hs = check_from (none_claimed 200) hs

-- ===== src/Url/Query.antt =====
-- The map of the query's values.
use web_socket_cpp.Base.{
  inl, inr, true, false, ◌||◌, List, [], ◌∷◌, ◌≡◌, ◌≢◌, refl, sym, ap₂, arith, Bool-cases,
  ByteArray, if◌then◌else◌,
}
use web_socket_cpp.Text.Compare.{compare_bytes, compare_bytes-iff-eq}
use web_socket_cpp.Url.{Url, text_less, assign, lookup, set_query_value, get_query_value}

text_less_refl : (str : ByteArray) → text_less str str ≡ false
unfolding text_less
text_less_refl [] = refl
text_less_refl (c ∷ str) = ground (arith, text_less_refl str)

text_less_total :
    (first second : ByteArray)
    → text_less first second ≡ false
    → text_less second first ≡ false
    → first ≡ second
unfolding text_less
text_less_total [] [] a b = refl
text_less_total [] (d ∷ second) a b = absurd (ground (arith, a))
text_less_total (c ∷ first) [] a b = absurd (ground (arith, b))
text_less_total (c ∷ first) (d ∷ second) a b =
    let e : c ≡ d = ground (arith, a, b) in
    ap₂ ◌∷◌ e (text_less_total first second (ground (arith, a, e)) (ground (arith, b, e)))

differs :
    (name other : ByteArray) → name ≢ other → (text_less name other || text_less other name) ≡ true
differs name other h = elim (Bool-cases (text_less name other)) [
  | inl less ↦ rw less refl
  | inr not_less ↦ elim (Bool-cases (text_less other name)) [
    | inl less ↦ rw (not_less, less) refl
    | inr neither ↦ absurd (h (text_less_total name other not_less neither))
  ]
]

lookup-assign_same :
    (name value : ByteArray) (entries : List (ByteArray × ByteArray))
    → lookup name (assign name value entries) ≡ value
unfolding assign lookup
lookup-assign_same name value [] = rw (text_less_refl name) refl
lookup-assign_same name value ((key, old) ∷ entries) =
    ground (arith, text_less_refl name, lookup-assign_same name value entries)

lookup-assign_other :
    (name other value : ByteArray) (entries : List (ByteArray × ByteArray))
    → name ≢ other
    → lookup other (assign name value entries) ≡ lookup other entries
unfolding assign lookup
lookup-assign_other name other value [] h = rw (differs name other h) refl
lookup-assign_other name other value ((key, old) ∷ entries) h =
    elim (Bool-cases (text_less key name)) [
      | inl less ↦ ground (arith, less, lookup-assign_other name other value entries h)
      | inr not_less ↦ elim (Bool-cases (text_less name key)) [
        | inl less ↦ rw (not_less, less) (rw (differs name other h) refl)
        | inr neither ↦
            let missed : (text_less key other || text_less other key) ≡ true =
              rw (text_less_total key name not_less neither) (differs name other h) in
            rw (not_less, neither) (rw missed refl)
      ]
    ]

-- What is read of a key after a value was set: the value if it is the same key, and otherwise what was
-- read before.
pub get_query_value-set_query_value :
    (name other value : ByteArray) (url : Url)
    → get_query_value other (set_query_value name value url)
      ≡ (if compare_bytes name other then value else get_query_value other url)
unfolding get_query_value set_query_value
get_query_value-set_query_value name other value url =
    elim (Bool-cases (compare_bytes name other)) [
      | inl same ↦
          let e : other ≡ name = sym ((compare_bytes-iff-eq name other).0 same) in
          rw same (rw e (lookup-assign_same name value url.query))
      | inr different ↦ rw different (
          lookup-assign_other name other value url.query
            (λ e. ground (arith, different, (compare_bytes-iff-eq name other).1 e)))
    ]

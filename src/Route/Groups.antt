-- ===== src/Route/Groups.antt =====
-- The order of a group's members and the member that is taken.
use web_socket_cpp.Base.{
  ℕ, ◌≤◌, inl, inr, true, false, List, [], ◌∷◌, some, ◌≡◌, refl, arith, Bool-cases, ByteArray, All,
  length,
}
use web_socket_cpp.Route.Tokens.{starts_with, match_group, sorts_before, insert_sorted, sort_group}
use web_socket_cpp.Route.Matching.{IsMember}

abbrev NoLonger : ByteArray → ByteArray → Type 0
NoLonger str other = length other ≤ length str

abbrev IsSorted : List ByteArray → Type 0
IsSorted [] = Unit
IsSorted (str ∷ strs) = All (NoLonger str) strs × IsSorted strs

sorts_before-le :
    (first second : ByteArray) → sorts_before first second ≡ true → length second ≤ length first
unfolding sorts_before
sorts_before-le first second h = ground arith

not_before-le :
    (first second : ByteArray) → sorts_before first second ≡ false → length first ≤ length second
unfolding sorts_before
not_before-le first second h = ground arith

All-weaken :
    (n m : ByteArray) (strs : List ByteArray)
    → length m ≤ length n
    → All (NoLonger m) strs
    → All (NoLonger n) strs
All-weaken n m [] le h = tt
All-weaken n m (str ∷ strs) le (first, h) = (omega arith, All-weaken n m strs le h)

insert_sorted-All :
    (bound str : ByteArray) (strs : List ByteArray)
    → length str ≤ length bound
    → All (NoLonger bound) strs
    → All (NoLonger bound) (insert_sorted str strs)
unfolding insert_sorted
insert_sorted-All bound str [] le h = (le, tt)
insert_sorted-All bound str (other ∷ strs) le (first, h) =
    elim (Bool-cases (sorts_before other str)) [
      | inl before ↦ rw before (first, insert_sorted-All bound str strs le h)
      | inr behind ↦ rw behind (le, (first, h))
    ]

insert_sorted-IsSorted :
    (str : ByteArray) (strs : List ByteArray) → IsSorted strs → IsSorted (insert_sorted str strs)
unfolding insert_sorted
insert_sorted-IsSorted str [] sorted = (tt, tt)
insert_sorted-IsSorted str (other ∷ strs) (longest, sorted) =
    elim (Bool-cases (sorts_before other str)) [
      | inl before ↦ rw before (
        insert_sorted-All other str strs (sorts_before-le other str before) longest,
        insert_sorted-IsSorted str strs sorted,
      )
      | inr behind ↦
          let le = not_before-le other str behind in
          rw behind ((le, All-weaken str other strs le longest), (longest, sorted))
    ]

sort_group-IsSorted : (strs : List ByteArray) → IsSorted (sort_group strs)
unfolding sort_group
sort_group-IsSorted [] = tt
sort_group-IsSorted (str ∷ strs) =
    insert_sorted-IsSorted str (sort_group strs) (sort_group-IsSorted strs)

insert_sorted-IsMember :
    (w str : ByteArray) (strs : List ByteArray)
    → IsMember w (str ∷ strs)
    → IsMember w (insert_sorted str strs)
unfolding insert_sorted
insert_sorted-IsMember w str [] h = h
insert_sorted-IsMember w str (other ∷ strs) h = elim (Bool-cases (sorts_before other str)) [
  | inr behind ↦ rw behind h
  | inl before ↦ rw before (elim h [
    | inl here ↦ inr (insert_sorted-IsMember w str strs (inl here))
    | inr (inl first) ↦ inl first
    | inr (inr later) ↦ inr (insert_sorted-IsMember w str strs (inr later))
  ])
]

sort_group-IsMember :
    (w : ByteArray) (strs : List ByteArray) → IsMember w strs → IsMember w (sort_group strs)
unfolding sort_group
sort_group-IsMember w [] h = h
sort_group-IsMember w (str ∷ strs) h =
    insert_sorted-IsMember w str (sort_group strs)
      (elim h [ inl here ↦ inl here | inr later ↦ inr (sort_group-IsMember w strs later) ])

All-IsMember :
    (bound w : ByteArray) (strs : List ByteArray)
    → All (NoLonger bound) strs
    → IsMember w strs
    → length w ≤ length bound
All-IsMember bound w [] h m = absurd m
All-IsMember bound w (str ∷ strs) (first, h) m = elim m [
  | inl e ↦ rw e first
  | inr later ↦ All-IsMember bound w strs h later
]

match_sorted-longest :
    (strs : List ByteArray) (rest w : ByteArray) (n : ℕ)
    → IsSorted strs
    → match_group strs rest ≡ some n
    → IsMember w strs
    → starts_with w rest ≡ true
    → length w ≤ n
unfolding match_group
match_sorted-longest [] rest w n sorted h m fits = absurd m
match_sorted-longest (str ∷ strs) rest w n (longest, sorted) h m fits =
    elim (Bool-cases (starts_with str rest)) [
      | inl here ↦
          let same : length str ≡ n = ground arith in
          elim m [
            | inl e ↦ rw (e) (omega arith)
            | inr later ↦ omega (arith, All-IsMember str w strs longest later)
          ]
      | inr other ↦ elim m [
        | inl e ↦ absurd (ground (arith, e))
        | inr later ↦ match_sorted-longest strs rest w n sorted (ground arith) later fits
      ]
    ]

insert_sorted-back :
    (w str : ByteArray) (strs : List ByteArray)
    → IsMember w (insert_sorted str strs)
    → IsMember w (str ∷ strs)
unfolding insert_sorted
insert_sorted-back w str [] h = h
insert_sorted-back w str (other ∷ strs) h = elim (Bool-cases (sorts_before other str)) [
  | inr behind ↦ rw behind at h
  | inl before ↦
      let moved : IsMember w (other ∷ insert_sorted str strs) = rw before at h in
      elim moved [
        | inl first ↦ inr (inl first)
        | inr later ↦ elim (insert_sorted-back w str strs later) [
          | inl here ↦ inl here
          | inr behind ↦ inr (inr behind)
        ]
      ]
]

sort_group-back :
    (w : ByteArray) (strs : List ByteArray) → IsMember w (sort_group strs) → IsMember w strs
unfolding sort_group
sort_group-back w [] h = h
sort_group-back w (str ∷ strs) h = elim (insert_sorted-back w str (sort_group strs) h) [
  | inl here ↦ inl here
  | inr later ↦ inr (sort_group-back w strs later)
]

match_group-taken :
    (strs : List ByteArray) (rest : ByteArray) (n : ℕ)
    → match_group strs rest ≡ some n
    → (str : ByteArray) × IsMember str strs × (starts_with str rest ≡ true) × (length str ≡ n)
unfolding match_group
match_group-taken [] rest n h = absurd (ground (arith, h))
match_group-taken (str ∷ strs) rest n h = elim (Bool-cases (starts_with str rest)) [
  | inl here ↦ (str, inl refl, here, ground arith)
  | inr other ↦
      let (taken, member, fits, same) = match_group-taken strs rest n (ground arith) in
      (taken, inr member, fits, same)
]

match_group-finds :
    (strs : List ByteArray) (rest w : ByteArray)
    → IsMember w strs
    → starts_with w rest ≡ true
    → (n : ℕ) × (match_group strs rest ≡ some n)
unfolding match_group
match_group-finds [] rest w m fits = absurd m
match_group-finds (str ∷ strs) rest w m fits = elim (Bool-cases (starts_with str rest)) [
  | inl here ↦ (length str, ground arith)
  | inr other ↦ elim m [
    | inl e ↦ absurd (ground (arith, e))
    | inr later ↦
        let (n, found) = match_group-finds strs rest w later fits in (n, ground (arith, found))
  ]
]

-- When a text starts with a member of a group, whose members are sorted as the parser sorts them, then
-- the group matches it and takes just as many characters as one of its members has with which the text
-- starts, and no member with which the text starts is longer.
pub match_group-longest :
    (members : List ByteArray) (rest w : ByteArray)
    → IsMember w members
    → starts_with w rest ≡ true
    → (n : ℕ) × (match_group (sort_group members) rest ≡ some n)
      × (length w ≤ n)
      × ((str : ByteArray) × IsMember str members
          × (starts_with str rest ≡ true)
          × (length str ≡ n))
match_group-longest members rest w m fits =
    let there = sort_group-IsMember w members m in
    let (n, h) = match_group-finds (sort_group members) rest w there fits in
    let (str, member, starts, same) = match_group-taken (sort_group members) rest n h in
    (
      n,
      h,
      match_sorted-longest (sort_group members) rest w n (sort_group-IsSorted members) h there fits,
      (str, sort_group-back str members member, starts, same),
    )

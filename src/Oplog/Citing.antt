-- ===== src/Oplog/Citing.antt =====
-- oplog/dag.ts: which heads an append cites.
use record_node.Prelude.{
  ℕ, zero, suc, ◌≤◌, ◌<◌, Text, ◌≡◌, refl, sym, ap, ltb→lt, lt→ltb, Bool, Bool-cases, Option-cases,
  ◌⊎◌, inl, inr, true, false, ◌&&◌, not, Option, none, some, List, [], ◌∷◌, arith, any, In, ltb,
  length, take, drop, sort_by, length-sort_by, In-sort_by, length-take-le, text_lt,
}
use record_node.Oplog.{Oplog}
use record_node.Oplog.Append.{
  find, replace_last, cited_heads, max_cited_heads, select_next, reaches, head_lt,
}

In-take : (n : ℕ) (x : Text) (xs : List Text) → In x (take n xs) → In x xs
In-take zero x xs m = absurd m
In-take (suc n) x [] m = m
In-take (suc n) x (y ∷ xs) (inl e) = inl e
In-take (suc n) x (y ∷ xs) (inr m) = inr (In-take n x xs m)

In-drop : (n : ℕ) (x : Text) (xs : List Text) → In x (drop n xs) → In x xs
In-drop zero x xs m = m
In-drop (suc n) x [] m = m
In-drop (suc n) x (y ∷ xs) m = inr (In-drop n x xs m)

In-drop-length : (n : ℕ) (x : Text) (xs : List Text) → In x (drop n xs) → n < length xs
In-drop-length zero x [] m = absurd m
In-drop-length zero x (y ∷ xs) m = omega arith
In-drop-length (suc n) x [] m = absurd m
In-drop-length (suc n) x (y ∷ xs) m = omega (arith, In-drop-length n x xs m)

In-split : (n : ℕ) (x : Text) (xs : List Text) → In x xs → In x (take n xs) ⊎ In x (drop n xs)
In-split zero x xs m = inr m
In-split (suc n) x [] m = inl m
In-split (suc n) x (y ∷ xs) (inl e) = inl (inl e)
In-split (suc n) x (y ∷ xs) (inr m) = elim (In-split n x xs m) [
  | inl t ↦ inl (inr t)
  | inr d ↦ inr d
]

any-In : (p : Text → Bool) (x : Text) (xs : List Text) → In x xs → p x ≡ true → any p xs ≡ true
any-In p x [] m t = absurd m
any-In p x (y ∷ xs) (inl e) t = ground arith
any-In p x (y ∷ xs) (inr m) t = ground (arith, any-In p x xs m t)

In-any : (p : Text → Bool) (xs : List Text) → any p xs ≡ true → (x : Text) × In x xs × (p x ≡ true)
In-any p [] h = absurd (cc)
In-any p (y ∷ xs) h = elim (Bool-cases (p y)) [
  | inl t ↦ (y, inl refl, t)
  | inr f ↦ let (x, m, t) = In-any p xs (ground arith) in (x, inr m, t)
]

find-some :
    (p : Text → Bool) (xs : List Text) (x : Text) → find p xs ≡ some x → In x xs × (p x ≡ true)
unfolding find
find-some p [] x h = absurd (cc)
find-some p (y ∷ xs) x h = elim (Bool-cases (p y)) [
  | inl t ↦ let same : y ≡ x = ground arith in (inl (ground arith), ground arith)
  | inr f ↦ let (m, t) = find-some p xs x (ground arith) in (inr m, t)
]

find-none : (p : Text → Bool) (xs : List Text) → find p xs ≡ none → any p xs ≡ false
unfolding find
find-none p [] h = refl
find-none p (y ∷ xs) h = ground (arith, find-none p xs)

length-replace_last : (x : Text) (xs : List Text) → length (replace_last x xs) ≡ length xs
unfolding replace_last
length-replace_last x [] = refl
length-replace_last x (y ∷ []) = refl
length-replace_last x (y ∷ z ∷ xs) = ap suc (length-replace_last x (z ∷ xs))

In-replace_last : (x y : Text) (xs : List Text) → In y (replace_last x xs) → (x ≡ y) ⊎ In y xs
unfolding replace_last
In-replace_last x y [] m = inr m
In-replace_last x y (z ∷ []) (inl e) = inl (ground arith)
In-replace_last x y (z ∷ []) (inr m) = absurd m
In-replace_last x y (z ∷ w ∷ xs) (inl e) = inr (inl e)
In-replace_last x y (z ∷ w ∷ xs) (inr m) = elim (In-replace_last x y (w ∷ xs) m) [
  | inl e ↦ inl e
  | inr n ↦ inr (inr n)
]

replace_last-In : (x : Text) (xs : List Text) → 1 ≤ length xs → In x (replace_last x xs)
unfolding replace_last
replace_last-In x [] h = absurd (omega arith)
replace_last-In x (z ∷ []) h = inl refl
replace_last-In x (z ∷ w ∷ xs) h = inr (replace_last-In x (w ∷ xs) (omega arith))

left_of_and : (a b : Bool) → (a && b) ≡ true → a ≡ true
left_of_and true b h = refl
left_of_and false b h = h

and_not : (a b : Bool) → a ≡ true → b ≡ false → (a && not b) ≡ true
and_not a b h k = rw h (rw k refl)

module _ (reaching : Text → Bool) (heads : List Text) where
  abbrev first_heads : List Text
  first_heads = take max_cited_heads heads

  abbrev is_replaced : Bool
  is_replaced = ltb max_cited_heads (length heads) && not (any reaching first_heads)

  -- The first heads, or these with the last one replaced by a later one that reaches.
  data IsCited : List Text → Type 0 where
    first :
        (is_replaced ≡ true → any reaching (drop max_cited_heads heads) ≡ false)
        → IsCited first_heads
    replaced :
        (x : Text)
        → is_replaced ≡ true
        → In x (drop max_cited_heads heads)
        → reaching x ≡ true
        → IsCited (replace_last x first_heads)

  cited_heads-IsCited : IsCited (cited_heads reaching heads)
  unfolding cited_heads
  cited_heads-IsCited = elim (Bool-cases is_replaced) [
    | inr f ↦ rw f (first (λ t. absurd (cc)))
    | inl t ↦ rw t (elim (Option-cases (find reaching (drop max_cited_heads heads))) [
      | inl n ↦ rw n (first (λ u. find-none reaching (drop max_cited_heads heads) n))
      | inr (x, e) ↦
          let (m, r) = find-some reaching (drop max_cited_heads heads) x e in
          rw e (replaced x t m r)
    ])
  ]

  IsCited-length : (next : List Text) → IsCited next → length next ≤ max_cited_heads
  IsCited-length _ (first _) = length-take-le max_cited_heads heads
  IsCited-length _ (replaced x t m r) =
      omega (arith, length-replace_last x first_heads, length-take-le max_cited_heads heads)

  IsCited-In : (next : List Text) (h : Text) → IsCited next → In h next → In h heads
  IsCited-In _ h (first _) m = In-take max_cited_heads h heads m
  IsCited-In _ h (replaced x t k r) m = elim (In-replace_last x h first_heads m) [
    | inl e ↦ rw (sym e) (In-drop max_cited_heads x heads k)
    | inr n ↦ In-take max_cited_heads h heads n
  ]

  length-first : (n : ℕ) (xs : List Text) → n < length xs → length (take n xs) ≡ n
  length-first zero xs h = refl
  length-first (suc n) [] h = absurd (omega arith)
  length-first (suc n) (x ∷ xs) h = omega (arith, length-first n xs)

  IsCited-reaches :
      (next : List Text) (h : Text)
      → IsCited next
      → In h heads
      → reaching h ≡ true
      → any reaching next ≡ true
  IsCited-reaches _ h (first missed) m r = elim (In-split max_cited_heads h heads m) [
    | inl t ↦ any-In reaching h first_heads t r
    | inr d ↦
        let later = any-In reaching h (drop max_cited_heads heads) d r in
        elim (Bool-cases is_replaced) [
          | inl t ↦ absurd (ground (arith, missed t))
          | inr f ↦ elim (Bool-cases (any reaching first_heads)) [
            | inl a ↦ a
            | inr n ↦
                let long =
                  lt→ltb max_cited_heads (length heads)
                    (In-drop-length max_cited_heads h heads d) in
                absurd (
                  cc (
                    f,
                    and_not (ltb max_cited_heads (length heads)) (any reaching first_heads) long n,
                  ))
          ]
        ]
  ]
  IsCited-reaches _ h (replaced x t k rx) m r =
      any-In reaching x (replace_last x first_heads)
        (replace_last-In x first_heads
          (omega (arith, length-first max_cited_heads heads (ltb→lt _ _ (left_of_and _ _ t)))))
        rx

module _ (oplog : Oplog) (capability_id : Option Text) where
  abbrev sorted_heads : List Text
  sorted_heads = sort_by (head_lt oplog) oplog.heads

  abbrev chosen : List Text
  chosen = cited_heads (reaches oplog capability_id) sorted_heads

  abbrev chosen_cited : IsCited (reaches oplog capability_id) sorted_heads chosen
  chosen_cited = cited_heads-IsCited (reaches oplog capability_id) sorted_heads

  -- An append cites at most 256 hashes, all of them heads; and if any head reaches the capability that it
  -- is written under, then one that it cites does.
  pub select_next-heads :
      (length (select_next oplog capability_id) ≤ max_cited_heads)
      × ((h : Text) → In h (select_next oplog capability_id) → In h oplog.heads)
      × ((h : Text)
          → In h oplog.heads
          → reaches oplog capability_id h ≡ true
          → any (reaches oplog capability_id) (select_next oplog capability_id) ≡ true)
  unfolding select_next
  select_next-heads = (
    omega (
      arith,
      length-sort_by text_lt chosen,
      IsCited-length (reaches oplog capability_id) sorted_heads chosen chosen_cited,
    ),
    λ h m. (In-sort_by (head_lt oplog) h oplog.heads).0 (
        IsCited-In (reaches oplog capability_id) sorted_heads chosen h chosen_cited
          ((In-sort_by text_lt h chosen).0 m)),
    λ h m r.
        let reached =
          IsCited-reaches (reaches oplog capability_id) sorted_heads chosen h chosen_cited
            ((In-sort_by (head_lt oplog) h oplog.heads).1 m) r in
        let (x, n, t) = In-any (reaches oplog capability_id) chosen reached in
        any-In (reaches oplog capability_id) x (sort_by text_lt chosen)
          ((In-sort_by text_lt x chosen).1 n) t,
  )

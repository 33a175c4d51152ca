-- ===== src/Elf/Slices.antt =====
-- Lists of several parts, cut where one part starts.
use rvcc.Prelude.{
  ℕ, suc, ◌+◌, ◌≡◌, refl, ap, ◌∙◌, List, [], ◌∷◌, ◌++◌, arith, length, take, drop, take-length,
}

module _ {ℓ} {A : Type ℓ} where
  drop-append : (xs ys : List A) (n : ℕ) → drop (length xs + n) (xs ++ ys) ≡ drop n ys
  drop-append [] ys n = let e : 0 + n ≡ n = omega arith in ap (λ k. drop k ys) e
  drop-append (x ∷ xs) ys n =
      let e : suc (length xs) + n ≡ suc (length xs + n) = omega arith in
      ap (λ k. drop k (x ∷ (xs ++ ys))) e ∙ drop-append xs ys n

  -- A part of the size `k`, with `n` elements before it.
  part_at :
      {n k : ℕ} (xs mid post : List A)
      → n ≡ length xs
      → k ≡ length mid
      → take k (drop n (xs ++ (mid ++ post))) ≡ mid
  part_at {n} {k} xs mid post e f =
      let e' : n ≡ length xs + 0 = omega (arith, e) in
      ap (λ m. take k (drop m (xs ++ (mid ++ post)))) e'
      ∙ (ap (take k) (drop-append xs (mid ++ post) 0)
          ∙ (ap (λ m. take m (mid ++ post)) f ∙ take-length mid post))

  part_after :
      {n : ℕ} (k m : ℕ) (xs ys : List A) {zs : List A}
      → n ≡ length xs + m
      → take k (drop m ys) ≡ zs
      → take k (drop n (xs ++ ys)) ≡ zs
  part_after k m xs ys e h =
      ap (λ i. take k (drop i (xs ++ ys))) e ∙ (ap (take k) (drop-append xs ys m) ∙ h)

module _ (h p c d y t n b : List ℕ) where
  abbrev pub eight : List ℕ
  eight = h ++ (p ++ (c ++ (d ++ (y ++ (t ++ (n ++ b))))))

  pub part_p : {k : ℕ} → k ≡ length p → take k (drop (length h) eight) ≡ p
  part_p = part_at h p (c ++ (d ++ (y ++ (t ++ (n ++ b))))) refl

  pub part_c : (i : ℕ) {k : ℕ} → i ≡ length h + length p → k ≡ length c → take k (drop i eight) ≡ c
  part_c i e f = part_after _ _ h _ e (part_at p c _ refl f)

  pub part_d :
      (i : ℕ) {k : ℕ}
      → i ≡ length h + (length p + length c)
      → k ≡ length d
      → take k (drop i eight) ≡ d
  part_d i e f = part_after _ _ h _ e (part_after _ _ p _ refl (part_at c d _ refl f))

  pub part_y :
      (i : ℕ) {k : ℕ}
      → i ≡ length h + (length p + (length c + length d))
      → k ≡ length y
      → take k (drop i eight) ≡ y
  part_y i e f =
      part_after _ _ h _ e
        (part_after _ _ p _ refl (part_after _ _ c _ refl (part_at d y _ refl f)))

  pub part_t :
      (i : ℕ) {k : ℕ}
      → i ≡ length h + (length p + (length c + (length d + length y)))
      → k ≡ length t
      → take k (drop i eight) ≡ t
  part_t i e f = part_after _ _ h _ e (
      part_after _ _ p _ refl
        (part_after _ _ c _ refl (part_after _ _ d _ refl (part_at y t _ refl f))))

  pub part_n :
      (i : ℕ) {k : ℕ}
      → i ≡ length h + (length p + (length c + (length d + (length y + length t))))
      → k ≡ length n
      → take k (drop i eight) ≡ n
  part_n i e f = part_after _ _ h _ e (
      part_after _ _ p _ refl (
        part_after _ _ c _ refl
          (part_after _ _ d _ refl (part_after _ _ y _ refl (part_at t n b refl f)))))

  pub part_b :
      (i : ℕ)
      → i
        ≡ length h + (length p + (length c + (length d + (length y + (length t + (length n + 0))))))
      → drop i eight ≡ b
  part_b i e =
      ap (λ i. drop i eight) e
      ∙ (drop-append h _ _
          ∙ (drop-append p _ _
              ∙ (drop-append c _ _
                  ∙ (drop-append d _ _
                      ∙ (drop-append y _ _ ∙ (drop-append t _ _ ∙ drop-append n b 0))))))

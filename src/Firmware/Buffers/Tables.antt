-- ===== src/Firmware/Buffers/Tables.antt =====
-- The table of the tags and that of the spare buffers: which tags stand for which buffers.
use accl.Base.{
  ℕ, zero, suc, ◌<◌, ◌≡◌, ◌≢◌, ◌⊎◌, inl, inr, refl, sym, ap, ◌∙◌, Option, none, some, List, [], ◌∷◌,
  set, length, length-set, arith,
}
use accl.Firmware.Machine.{RxBuffer, entry}
use accl.Firmware.Buffers.{status_enqueued}

module _ {ℓ} {A : Type ℓ} where
  pub entry-set_self :
      (xs : List A) (i : ℕ) (x y : A) → entry xs i ≡ some y → entry (set xs i x) i ≡ some x
  entry-set_self [] i x y h = cc
  entry-set_self (z ∷ xs) zero x y h = refl
  entry-set_self (z ∷ xs) (suc i) x y h = entry-set_self xs i x y h

  pub entry-set_ne : (xs : List A) (i j : ℕ) (x : A) → i ≢ j → entry (set xs i x) j ≡ entry xs j
  entry-set_ne [] i j x h = refl
  entry-set_ne (z ∷ xs) zero zero x h = absurd (h refl)
  entry-set_ne (z ∷ xs) zero (suc j) x h = refl
  entry-set_ne (z ∷ xs) (suc i) zero x h = refl
  entry-set_ne (z ∷ xs) (suc i) (suc j) x h = entry-set_ne xs i j x (λ e. h (ap suc e))

  -- What is found after a write is what was written, or was there before.
  pub entry-set_cases :
      (xs : List A) (i j : ℕ) (x d : A)
      → entry (set xs i x) j ≡ some d
      → ((i ≡ j) × (d ≡ x)) ⊎ ((i ≢ j) × (entry xs j ≡ some d))
  entry-set_cases [] i j x d h = cc
  entry-set_cases (z ∷ xs) zero zero x d h = inl (refl, cc)
  entry-set_cases (z ∷ xs) zero (suc j) x d h = inr ((λ e. omega arith), h)
  entry-set_cases (z ∷ xs) (suc i) zero x d h = inr ((λ e. omega arith), h)
  entry-set_cases (z ∷ xs) (suc i) (suc j) x d h = elim (entry-set_cases xs i j x d h) [
    | inl p ↦ inl (ap suc p.0, p.1)
    | inr p ↦ inr ((λ e. p.0 (omega arith)), p.1)
  ]

  pub entry_within : (xs : List A) (i : ℕ) (x : A) → entry xs i ≡ some x → i < length xs
  entry_within [] i x h = cc
  entry_within (z ∷ xs) zero x h = omega arith
  entry_within (z ∷ xs) (suc i) x h = omega (arith, entry_within xs i x h)

some_apart : (j : ℕ) → ◌≢◌ {A = Option (Option ℕ)} (some none) (some (some j))
some_apart j h = cc

index_of : (i j : ℕ) → ◌≡◌ {A = Option (Option ℕ)} (some (some i)) (some (some j)) → i ≡ j
index_of i j h = cc

-- Each tag in use stands for a buffer of the table that is with the engine under that tag, each
-- buffer that is with the engine has its tag in the table, and there are sixteen tags.
pub record IsConsistent (lookup : List (Option ℕ)) (bufs : List RxBuffer) : Type 0 where
  pub within : (tag i : ℕ) → entry lookup tag ≡ some (some i) → i < length bufs
  pub tagged :
      (tag i : ℕ) (b : RxBuffer)
      → entry lookup tag ≡ some (some i)
      → entry bufs i ≡ some b
      → (b.status ≡ status_enqueued) × (b.dma_tag ≡ tag)
  pub found :
      (i : ℕ) (b : RxBuffer)
      → entry bufs i ≡ some b
      → b.status ≡ status_enqueued
      → entry lookup b.dma_tag ≡ some (some i)
  pub tags : length lookup ≡ 16

module _ (lookup : List (Option ℕ)) (bufs : List RxBuffer) (c : IsConsistent lookup bufs) where
  -- A buffer is rewritten: its status and tag stay, or it is not with the engine before and after.
  pub rewrite_buffer :
      (i : ℕ) (b b' : RxBuffer)
      → entry bufs i ≡ some b
      → b'.status ≡ b.status
      → b'.dma_tag ≡ b.dma_tag
      → IsConsistent lookup (set bufs i b')
  rewrite_buffer i b b' h p q = record {
    within = λ tag j k. omega (arith, c.within tag j k, length-set bufs i b');
    tagged = λ tag j d k e. elim (entry-set_cases bufs i j b' d e) [
      | inl r ↦
          let t = c.tagged tag i b (k ∙ ap (λ x. some (some x)) (sym r.0)) h in
          (ap (λ x. x.status) r.1 ∙ p ∙ t.0, ap (λ x. x.dma_tag) r.1 ∙ q ∙ t.1)
      | inr r ↦ c.tagged tag j d k r.1
    ];
    found = λ j d e s. elim (entry-set_cases bufs i j b' d e) [
      | inl r ↦
          let f = c.found i b h (sym p ∙ ap (λ x. x.status) (sym r.1) ∙ s) in
          ap (λ x. entry lookup x.dma_tag) r.1
          ∙ ap (entry lookup) q
          ∙ f
          ∙ ap (λ x. some (some x)) r.0
      | inr r ↦ c.found j d r.1 s
    ];
    tags = c.tags;
  }

  pub rewrite_free :
      (i : ℕ) (b b' : RxBuffer)
      → entry bufs i ≡ some b
      → b.status ≢ status_enqueued
      → b'.status ≢ status_enqueued
      → IsConsistent lookup (set bufs i b')
  rewrite_free i b b' h p q = record {
    within = λ tag j k. omega (arith, c.within tag j k, length-set bufs i b');
    tagged = λ tag j d k e. elim (entry-set_cases bufs i j b' d e) [
      | inl r ↦ absurd (p (c.tagged tag i b (k ∙ ap (λ x. some (some x)) (sym r.0)) h).0)
      | inr r ↦ c.tagged tag j d k r.1
    ];
    found = λ j d e s. elim (entry-set_cases bufs i j b' d e) [
      | inl r ↦ absurd (q (ap (λ x. x.status) (sym r.1) ∙ s))
      | inr r ↦ c.found j d r.1 s
    ];
    tags = c.tags;
  }

  -- A buffer is given to the engine under a tag that no buffer has.
  pub give_buffer :
      (i tag : ℕ) (b b' : RxBuffer)
      → entry bufs i ≡ some b
      → b.status ≢ status_enqueued
      → entry lookup tag ≡ some none
      → b'.status ≡ status_enqueued
      → b'.dma_tag ≡ tag
      → IsConsistent (set lookup tag (some i)) (set bufs i b')
  give_buffer i tag b b' h idle free p q = record {
    within = λ t j k. elim (entry-set_cases lookup tag t (some i) (some j) k) [
      | inl r ↦
          let e : j ≡ i = cc in omega (arith, length-set bufs i b', entry_within bufs i b h, e)
      | inr r ↦ omega (arith, c.within t j r.1, length-set bufs i b')
    ];
    tagged = λ t j d k e. elim (entry-set_cases bufs i j b' d e) [
      | inl r ↦ (
        ap (λ x. x.status) r.1 ∙ p,
        ap (λ x. x.dma_tag) r.1 ∙ q ∙ elim (entry-set_cases lookup tag t (some i) (some j) k) [
          | inl u ↦ u.0
          | inr u ↦ absurd (idle (c.tagged t i b (u.1 ∙ ap (λ x. some (some x)) (sym r.0)) h).0)
        ],
      )
      | inr r ↦ elim (entry-set_cases lookup tag t (some i) (some j) k) [
        | inl u ↦ absurd (r.0 cc)
        | inr u ↦ c.tagged t j d u.1 r.1
      ]
    ];
    found = λ j d e s. elim (entry-set_cases bufs i j b' d e) [
      | inl r ↦
          ap (λ x. entry (set lookup tag (some i)) x.dma_tag) r.1
          ∙ ap (entry (set lookup tag (some i))) q
          ∙ entry-set_self lookup tag (some i) none free
          ∙ ap (λ x. some (some x)) r.0
      | inr r ↦
          let f = c.found j d r.1 s in
          entry-set_ne lookup tag d.dma_tag (some i)
            (λ e'. some_apart j (sym free ∙ ap (entry lookup) e' ∙ f))
          ∙ f
    ];
    tags = length-set lookup tag (some i) ∙ c.tags;
  }

  -- A buffer is taken back, and its tag is free.
  pub take_buffer :
      (i tag : ℕ) (b b' : RxBuffer)
      → entry bufs i ≡ some b
      → entry lookup tag ≡ some (some i)
      → b'.status ≢ status_enqueued
      → IsConsistent (set lookup tag none) (set bufs i b')
  take_buffer i tag b b' h own p = record {
    within = λ t j k. elim (entry-set_cases lookup tag t none (some j) k) [
      | inl r ↦ cc
      | inr r ↦ omega (arith, c.within t j r.1, length-set bufs i b')
    ];
    tagged = λ t j d k e. elim (entry-set_cases lookup tag t none (some j) k) [
      | inl u ↦ cc
      | inr u ↦ elim (entry-set_cases bufs i j b' d e) [
        | inl r ↦ absurd (
            u.0 (
              sym (c.tagged tag i b own h).1
              ∙ (c.tagged t i b (u.1 ∙ ap (λ x. some (some x)) (sym r.0)) h).1))
        | inr r ↦ c.tagged t j d u.1 r.1
      ]
    ];
    found = λ j d e s. elim (entry-set_cases bufs i j b' d e) [
      | inl r ↦ absurd (p (ap (λ x. x.status) (sym r.1) ∙ s))
      | inr r ↦
          let f = c.found j d r.1 s in
          entry-set_ne lookup tag d.dma_tag none
            (λ e'. r.0 (index_of i j (sym own ∙ ap (entry lookup) e' ∙ f)))
          ∙ f
    ];
    tags = length-set lookup tag none ∙ c.tags;
  }

-- ===== src/Redis/Profile/FlushWhere.antt =====
-- RedisMgr.cpp, OnFlushConnection on some of the connections.
use seed_core.Prelude.{
  ℕ, zero, suc, ◌+◌, ◌≤◌, ◌<◌, ◌≡◌, refl, sym, ap, ap₂, ◌∙◌, Bool, true, false, ◌||◌, List, [], ◌∷◌,
  map, none, some, arith, length, get_elem?, set, ◌==◌, if◌then◌else◌,
}
use seed_core.Redis.Profile.Flush.{Watches, flushed}

some_injective {ℓ} : {A : Type ℓ} {a b : A} → some a ≡ some b → a ≡ b
some_injective {a = a} e = ap (λ o. elim o [ none ↦ a | some x ↦ x ]) e

at_place : (k : ℕ) (b : Bool) → ((k == k + 0) || b) ≡ true
at_place k b = ground arith

before_place : (k i : ℕ) (b : Bool) → b ≡ ((k == k + suc i) || b)
before_place k i b = ground arith

module _ {V : Type 0} where
  -- The connections, those flushed that `f` says.
  unfoldable pub flush_where : (ℕ → Bool) → ℕ → List (Watches V) → List (Watches V)
  flush_where f k [] = []
  flush_where f k (w ∷ ws) = (if f k then flushed w else w) ∷ flush_where f (suc k) ws

  pub flush_where-ext :
      (f g : ℕ → Bool) (k : ℕ) (ws : List (Watches V))
      → ((j : ℕ) → k ≤ j → f j ≡ g j)
      → flush_where f k ws ≡ flush_where g k ws
  unfolding flush_where
  flush_where-ext f g k [] h = refl
  flush_where-ext f g k (w ∷ ws) h =
      ap₂ (λ (b : Bool) (l : List (Watches V)). (if b then flushed w else w) ∷ l)
        (h k (omega arith)) (flush_where-ext f g (suc k) ws (λ j le. h j (omega arith)))

  flushed_twice : (b : Bool) (w : Watches V) → flushed (if b then flushed w else w) ≡ flushed w
  unfolding flushed
  flushed_twice true w = refl
  flushed_twice false w = refl

  pub length-flush_where :
      (f : ℕ → Bool) (k : ℕ) (ws : List (Watches V)) → length (flush_where f k ws) ≡ length ws
  unfolding flush_where
  length-flush_where f k [] = refl
  length-flush_where f k (w ∷ ws) = ap suc (length-flush_where f (suc k) ws)

  pub set-flush_where :
      (f : ℕ → Bool) (k i : ℕ) (ws : List (Watches V)) (w : Watches V)
      → get_elem? (flush_where f k ws) i ≡ some w
      → set (flush_where f k ws) i (flushed w) ≡ flush_where (λ j. (j == k + i) || f j) k ws
  unfolding flush_where
  set-flush_where f k i [] w h = cc
  set-flush_where f k zero (x ∷ ws) w h =
      ap₂ ◌∷◌
        (ap flushed (sym (some_injective h))
          ∙ flushed_twice (f k) x
          ∙ ap (λ (b : Bool). if b then flushed x else x) (sym (at_place k (f k))))
        (flush_where-ext f _ (suc k) ws (λ j le. ground arith))
  set-flush_where f k (suc i) (x ∷ ws) w h =
      ap₂ ◌∷◌ (ap (λ (b : Bool). if b then flushed x else x) (before_place k i (f k)))
        (set-flush_where f (suc k) i ws w h ∙ flush_where-ext _ _ (suc k) ws (λ j le. ground arith))

  pub flush_where_none : (k : ℕ) (ws : List (Watches V)) → flush_where (λ j. false) k ws ≡ ws
  unfolding flush_where
  flush_where_none k [] = refl
  flush_where_none k (w ∷ ws) = ap (◌∷◌ w) (flush_where_none (suc k) ws)

  pub flush_where_all :
      (f : ℕ → Bool) (k : ℕ) (ws : List (Watches V))
      → ((j : ℕ) → k ≤ j → j < k + length ws → f j ≡ true)
      → flush_where f k ws ≡ map flushed ws
  unfolding flush_where
  flush_where_all f k [] h = refl
  flush_where_all f k (w ∷ ws) h =
      ap₂ ◌∷◌ (ap (λ (b : Bool). if b then flushed w else w) (h k (omega arith) (omega arith)))
        (flush_where_all f (suc k) ws (λ j le lt. h j (omega arith) (omega arith)))

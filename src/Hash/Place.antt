-- ===== src/Hash/Place.antt =====
-- consistenthash.go: the loop of AddWithReplicas puts the node at its hash values.
use mathlib.Core.Path.{subst}
use mathlib.Core.Logic.{ite}
use fastgozero.Prelude.{
  ℕ, zero, suc, ◌+◌, ◌%◌, ◌≤◌, ◌<◌, ◌≡◌, ◌≢◌, refl, sym, ap, ◌∙◌, inl, inr, true, false, List, [],
  ◌∷◌, ◌++◌, append_assoc, append-nil, ◌==◌, length, length-append, get_or, ℕ_discrete, Bool-cases,
  ==_iff, arith,
}
use fastgozero.Prelude.Texts.{Text}
use fastgozero.Prelude.Maps.{insert, lookup-insert}
use fastgozero.Hash.{ConsistentHash, got, at_key, place, choose, get_node, replica_hash, add_loop}
use fastgozero.Hash.Order.{has, IsSorted, key_of}

module _ {N : Type 0} where
  abbrev pub AllAre : N → List N → Type 0
  AllAre node [] = Unit {0}
  AllAre node (x ∷ xs) = (x ≡ node) × AllAre node xs

  AllAre-snoc : (node : N) (xs : List N) → AllAre node xs → AllAre node (xs ++ node ∷ [])
  AllAre-snoc node [] h = (refl, tt)
  AllAre-snoc node (x ∷ xs) h = (h.0, AllAre-snoc node xs h.1)

  get_or-AllAre :
      (node : N) (xs : List N) (i : ℕ) (d : N) → AllAre node xs → d ≡ node → get_or xs i d ≡ node
  get_or-AllAre node [] i d h e = e
  get_or-AllAre node (x ∷ xs) zero d h e = h.0
  get_or-AllAre node (x ∷ xs) (suc i) d h e = get_or-AllAre node xs i d h.1 e

  pub choose-AllAre :
      (node : N) (inner : ℕ) (xs : List N)
      → AllAre node xs
      → 0 < length xs
      → choose inner xs ≡ got node
  unfolding choose
  choose-AllAre node inner [] h l = absurd (omega arith)
  choose-AllAre node inner (x ∷ []) h l = ap got h.0
  choose-AllAre node inner (x ∷ y ∷ xs) h l =
      ap got (get_or-AllAre node (x ∷ y ∷ xs) (inner % length (x ∷ y ∷ xs)) x h h.0)

  at_key-insert :
      (j k : ℕ) (xs : List N) (ring : List (ℕ × List N))
      → at_key j (insert ℕ_discrete k xs ring) ≡ ite (ℕ_discrete k j) xs (at_key j ring)
  unfolding at_key
  at_key-insert j k xs ring = ground (arith, lookup-insert ℕ_discrete k j xs ring)

  at_key-place :
      (j k : ℕ) (node : N) (h : ConsistentHash N)
      → at_key j (place k node h).ring
        ≡ ite (ℕ_discrete k j) (at_key k h.ring ++ node ∷ []) (at_key j h.ring)
  unfolding place
  at_key-place j k node h = at_key-insert j k (at_key k h.ring ++ node ∷ []) h.ring

  pub place_other :
      (j k : ℕ) (node : N) (h : ConsistentHash N)
      → k ≢ j
      → at_key j (place k node h).ring ≡ at_key j h.ring
  place_other j k node h ne = ground (arith, at_key-place j k node h)

  pub place_here :
      (k : ℕ) (node : N) (h : ConsistentHash N)
      → at_key k (place k node h).ring ≡ at_key k h.ring ++ node ∷ []
  place_here k node h = ground (arith, at_key-place k k node h)

  -- Get, where the ring is not empty.
  pub get_node_lem :
      (h : ConsistentHash N) (v inner : Text)
      → h.ring ≢ []
      → 0 < length h.keys
      → get_node h v inner
        ≡ choose (h.hash_func inner) (at_key (key_of (h.hash_func v) h.keys) h.ring)
  unfolding get_node key_of
  get_node_lem h v inner r k = go h.ring refl
    where
      go :
          (ring : List (ℕ × List N))
          → h.ring ≡ ring
          → get_node h v inner
            ≡ choose (h.hash_func inner) (at_key (key_of (h.hash_func v) h.keys) h.ring)
      go [] e = absurd (r e)
      go (x ∷ xs) e = let l : (length h.keys == 0) ≡ false = ground arith in rw (e, l) refl

  -- Every key has a node, and the keys are in order.
  pub record IsValid (h : ConsistentHash N) : Type 0 where
    pub sorted : IsSorted h.keys
    pub covered : (k : ℕ) → has k h.keys ≡ true → 0 < length (at_key k h.ring)

module _ {N : Type 0} (repr : N → Text) (itoa : ℕ → Text) where
  -- The hash values of the replicas from `i` on.
  unfoldable pub hashes : ℕ → ℕ → N → ConsistentHash N → List ℕ
  hashes zero i node h = []
  hashes (suc n) i node h = replica_hash repr itoa h node i ∷ hashes n (i + 1) node h

  pub hashes_same :
      (n i : ℕ) (node : N) (g h : ConsistentHash N)
      → g.hash_func ≡ h.hash_func
      → hashes n i node g ≡ hashes n i node h
  unfolding hashes replica_hash
  hashes_same zero i node g h e = refl
  hashes_same (suc n) i node g h e = cc (hashes_same n (i + 1) node g h e)

  hashes-place :
      (n i k : ℕ) (node : N) (h : ConsistentHash N)
      → hashes n i node (place k node h) ≡ hashes n i node h
  unfolding place
  hashes-place n i k node h = hashes_same n i node (unfold place in place k node h) h refl

  pub hash_func-add_loop :
      (n i : ℕ) (node : N) (h : ConsistentHash N)
      → ((add_loop repr itoa n i node h).hash_func ≡ h.hash_func)
        × ((add_loop repr itoa n i node h).keys ≡ h.keys ++ hashes n i node h)
  unfolding add_loop hashes place
  hash_func-add_loop zero i node h = (refl, sym (append-nil h.keys))
  hash_func-add_loop (suc n) i node h =
      let k = replica_hash repr itoa h node i in
      let r = hash_func-add_loop n (i + 1) node (place k node h) in
      (
        r.0,
        r.1
            ∙ append_assoc h.keys (k ∷ []) (hashes n (i + 1) node (place k node h))
            ∙ ap (λ xs. h.keys ++ k ∷ xs) (hashes-place n (i + 1) k node h),
      )

  -- A round of the loop keeps what is only the node, and what is not empty.
  place-AllAre :
      (j k : ℕ) (node : N) (h : ConsistentHash N)
      → AllAre node (at_key j h.ring)
      → AllAre node (at_key j (place k node h).ring)
  place-AllAre j k node h a = elim (ℕ_discrete k j) [
    | yes e ↦
        subst (λ i. AllAre node (at_key i (place k node h).ring)) e
          (rw (place_here k node h) (
            AllAre-snoc node (at_key k h.ring)
              (subst (λ i. AllAre node (at_key i h.ring)) (sym e) a)))
    | no ne ↦ rw (place_other j k node h ne) a
  ]

  place_grows :
      (j k : ℕ) (node : N) (h : ConsistentHash N)
      → length (at_key j h.ring) ≤ length (at_key j (place k node h).ring)
  place_grows j k node h = elim (ℕ_discrete k j) [
    | yes e ↦
        subst (λ i. length (at_key i h.ring) ≤ length (at_key i (place k node h).ring)) e
          (rw (place_here k node h) (omega (arith, length-append (at_key k h.ring) (node ∷ []))))
    | no ne ↦ rw (place_other j k node h ne) (omega arith)
  ]

  pub add_loop_grows :
      (n i : ℕ) (node : N) (h : ConsistentHash N) (j : ℕ)
      → length (at_key j h.ring) ≤ length (at_key j (add_loop repr itoa n i node h).ring)
  unfolding add_loop
  add_loop_grows zero i node h j = omega arith
  add_loop_grows (suc n) i node h j =
      let k = replica_hash repr itoa h node i in
      omega (arith, place_grows j k node h, add_loop_grows n (i + 1) node (place k node h) j)

  pub add_loop-AllAre :
      (n i : ℕ) (node : N) (h : ConsistentHash N) (j : ℕ)
      → AllAre node (at_key j h.ring)
      → AllAre node (at_key j (add_loop repr itoa n i node h).ring)
  unfolding add_loop
  add_loop-AllAre zero i node h j a = a
  add_loop-AllAre (suc n) i node h j a =
      let k = replica_hash repr itoa h node i in
      add_loop-AllAre n (i + 1) node (place k node h) j (place-AllAre j k node h a)

  -- At the hash values of the replicas the node stands, and nothing else changes.
  pub add_loop_new :
      (n i : ℕ) (node : N) (h : ConsistentHash N) (j : ℕ)
      → has j (hashes n i node h) ≡ true
      → 0 < length (at_key j (add_loop repr itoa n i node h).ring)
  unfolding add_loop hashes has
  add_loop_new zero i node h j e = cc
  add_loop_new (suc n) i node h j e =
      let k = replica_hash repr itoa h node i in
      elim (Bool-cases (k == j)) [
        | inl here ↦
            let same = (==_iff k j).0 here in
            let there : 0 < length (at_key j (place k node h).ring) =
              subst (λ l. 0 < length (at_key l (place k node h).ring)) same
                (rw (place_here k node h)
                  (omega (arith, length-append (at_key k h.ring) (node ∷ [])))) in
            omega (arith, add_loop_grows n (i + 1) node (place k node h) j)
        | inr further ↦
            add_loop_new n (i + 1) node (place k node h) j
              (rw (hashes-place n (i + 1) k node h) (rw further at e))
      ]

  pub add_loop_other :
      (n i : ℕ) (node : N) (h : ConsistentHash N) (j : ℕ)
      → has j (hashes n i node h) ≡ false
      → at_key j (add_loop repr itoa n i node h).ring ≡ at_key j h.ring
  unfolding add_loop hashes has
  add_loop_other zero i node h j e = refl
  add_loop_other (suc n) i node h j e =
      let k = replica_hash repr itoa h node i in
      elim (Bool-cases (k == j)) [
        | inl here ↦ cc (rw here at e)
        | inr further ↦
            add_loop_other n (i + 1) node (place k node h) j
              (rw (hashes-place n (i + 1) k node h) (rw further at e))
            ∙ place_other j k node h (λ same. ground arith)
      ]

-- ===== src/Hash/Spread.antt =====
-- consistenthash.go: a node that is added takes over items, and moves no item between others.
use mathlib.Core.Path.{subst}
use fastgozero.Prelude.{
  ℕ, ◌≤◌, ◌<◌, ◌≡◌, ◌≢◌, refl, sym, ap, ◌∙◌, ◌⊎◌, inl, inr, true, false, ◌||◌, List, [], ◌∷◌, ◌++◌,
  ltb, if◌then◌else◌, length, Bool-cases, arith,
}
use fastgozero.Prelude.Texts.{Text}
use fastgozero.Prelude.Maps.{lookup}
use fastgozero.Hash.{
  ConsistentHash, got, sort_keys, contains_node, add_node, at_key, choose, get_node, add_loop,
  remove, add_with_replicas,
}
use fastgozero.Hash.Order.{
  has, sort_keys-IsSorted, has-sort_keys, has-append, Owns, Owns-unique, Owns-append, key_of,
  key_of-Owns,
}
use fastgozero.Hash.Place.{
  AllAre, IsValid, hashes, hashes_same, choose-AllAre, get_node_lem, hash_func-add_loop,
  add_loop_grows, add_loop-AllAre, add_loop_new, add_loop_other,
}

has_nonempty : (k : ℕ) (keys : List ℕ) → has k keys ≡ true → 0 < length keys
unfolding has
has_nonempty k [] h = cc
has_nonempty k (j ∷ js) h = omega arith

at_key_nonempty :
    {N : Type 0} (k : ℕ) (ring : List (ℕ × List N)) → 0 < length (at_key k ring) → ring ≢ []
unfolding at_key lookup
at_key_nonempty {N} k ring h e =
    let z : 0 < length {A = N} [] = subst (λ r. 0 < length (at_key k r)) e h in
    absurd (omega (arith, z))

module _ {N : Type 0} (repr : N → Text) (itoa : ℕ → Text) where
  -- The number of replicas that AddWithReplicas places, and their hash values.
  abbrev pub used : ConsistentHash N → ℕ → ℕ
  used h n = if ltb h.replicas n then h.replicas else n

  abbrev pub new_hashes : ConsistentHash N → N → ℕ → List ℕ
  new_hashes h node n = hashes repr itoa (used h n) 0 node h

  -- None of the hash values of the node is taken.
  abbrev pub IsFresh : ConsistentHash N → N → ℕ → Type 0
  IsFresh h node n =
      (j : ℕ) → has j (new_hashes h node n) ≡ true → (has j h.keys ≡ false) × (at_key j h.ring ≡ [])

  module _ (h : ConsistentHash N) (node : N) (n : ℕ)
      (absent : contains_node (repr node) h.nodes ≡ false) where
    placed : ConsistentHash N
    placed =
        add_loop repr itoa (used h n) 0 node (record h { nodes = add_node (repr node) h.nodes })

    add_with_replicas_new :
        add_with_replicas repr itoa h node n ≡ record placed { keys = sort_keys placed.keys }
    unfolding add_with_replicas remove placed
    add_with_replicas_new = rw absent refl

    placed_fields : (placed.hash_func ≡ h.hash_func) × (placed.keys ≡ h.keys ++ new_hashes h node n)
    unfolding placed
    placed_fields =
        let r =
          hash_func-add_loop repr itoa (used h n) 0 node
            (record h { nodes = add_node (repr node) h.nodes }) in
        let e =
          hashes_same repr itoa (used h n) 0 node
            (record h { nodes = add_node (repr node) h.nodes }) h refl in
        (r.0, r.1 ∙ ap (λ xs. h.keys ++ xs) e)

    new : List ℕ
    new = new_hashes h node n

    at_new : (j : ℕ) → has j new ≡ true → 0 < length (at_key j placed.ring)
    unfolding new placed
    at_new j e = add_loop_new repr itoa (used h n) 0 node _ j (
        rw
          (hashes_same repr itoa (used h n) 0 node
            (record h { nodes = add_node (repr node) h.nodes }) h refl)
          e)

    at_other : (j : ℕ) → has j new ≡ false → at_key j placed.ring ≡ at_key j h.ring
    unfolding new placed
    at_other j e =
        add_loop_other repr itoa (used h n) 0 node
          (record h { nodes = add_node (repr node) h.nodes }) j
          (rw
            (hashes_same repr itoa (used h n) 0 node
              (record h { nodes = add_node (repr node) h.nodes }) h refl)
            e)

    at_grows : (j : ℕ) → length (at_key j h.ring) ≤ length (at_key j placed.ring)
    unfolding placed
    at_grows j =
        add_loop_grows repr itoa (used h n) 0 node
          (record h { nodes = add_node (repr node) h.nodes }) j

    at_only : (j : ℕ) → at_key j h.ring ≡ [] → AllAre node (at_key j placed.ring)
    unfolding placed
    at_only j e =
        add_loop-AllAre repr itoa (used h n) 0 node
          (record h { nodes = add_node (repr node) h.nodes }) j (subst (AllAre node) (sym e) tt)

    -- The keys after the call.
    all : List ℕ
    all = sort_keys placed.keys

    has-all : (j : ℕ) → has j all ≡ (has j h.keys || has j new)
    unfolding all new
    has-all j =
        has-sort_keys j placed.keys
        ∙ ap (has j) placed_fields.1
        ∙ has-append j h.keys (new_hashes h node n)

    -- AddWithReplicas of a node that is not there keeps the keys in order, each with a node.
    pub add_with_replicas-IsValid : IsValid h → IsValid (add_with_replicas repr itoa h node n)
    add_with_replicas-IsValid v = rw add_with_replicas_new (record {
      sorted = sort_keys-IsSorted placed.keys;
      covered = λ k hk. elim (Bool-cases (has k new)) [
        | inl there ↦ at_new k there
        | inr other ↦
            let now : has k all ≡ true = unfold all in hk in
            let old : has k h.keys ≡ true = ground (arith, has-all k) in
            omega (arith, at_grows k, v.covered k old)
      ];
    })

    get_placed :
        (v inner : Text) (k : ℕ)
        → has k all ≡ true
        → 0 < length (at_key k placed.ring)
        → get_node (add_with_replicas repr itoa h node n) v inner
          ≡ choose (h.hash_func inner) (at_key (key_of (h.hash_func v) all) placed.ring)
    unfolding all
    get_placed v inner k there full =
        ap (λ g. get_node g v inner) add_with_replicas_new
        ∙ get_node_lem (record placed { keys = sort_keys placed.keys }) v inner
            (at_key_nonempty k placed.ring full) (has_nonempty k (sort_keys placed.keys) there)
        ∙ ap
            (λ (f : Text → ℕ).
              choose (f inner) (at_key (key_of (f v) (sort_keys placed.keys)) placed.ring))
            placed_fields.0

    -- Where a node is added to a valid ConsistentHash that has keys, was not there, and has replicas
    -- at hash values that are not taken, every item is served by Get from the added node or as
    -- before: no item moves between other nodes.
    pub get_node-add_with_replicas :
        IsFresh h node n
        → IsValid h
        → 0 < length h.keys
        → (v inner : Text)
        → (get_node (add_with_replicas repr itoa h node n) v inner ≡ got node)
          ⊎ (get_node (add_with_replicas repr itoa h node n) v inner ≡ get_node h v inner)
    get_node-add_with_replicas fresh valid some_key v inner =
        let x = h.hash_func v in
        let old = key_of-Owns x h.keys some_key valid.sorted in
        let there : has (key_of x h.keys) all ≡ true =
          ground (arith, has-all (key_of x h.keys), old.member) in
        let own : Owns x all (key_of x all) =
          unfold all in
          key_of-Owns x (sort_keys placed.keys)
            (has_nonempty (key_of x h.keys) (sort_keys placed.keys) (unfold all in there))
            (sort_keys-IsSorted placed.keys) in
        let served = λ (full : 0 < length (at_key (key_of x all) placed.ring)).
          get_placed v inner (key_of x all) own.member full in
        elim (Bool-cases (has (key_of x all) new)) [
          | inl taken ↦
              let full = at_new (key_of x all) taken in
              let f = fresh (key_of x all) (unfold new in taken) in
              inl (
                served full
                ∙ choose-AllAre node (h.hash_func inner) (at_key (key_of x all) placed.ring)
                    (at_only (key_of x all) f.1) full)
          | inr kept ↦ elim (Owns-append x h.keys new all (key_of x all) has-all own) [
            | inl taken ↦ cc
            | inr before ↦
                let same = Owns-unique x h.keys (key_of x all) (key_of x h.keys) before old in
                let full : 0 < length (at_key (key_of x all) placed.ring) =
                  omega
                    (arith, at_grows (key_of x all), valid.covered (key_of x all) before.member) in
                let ring_used =
                  at_key_nonempty (key_of x all) h.ring (valid.covered _ before.member) in
                inr (
                  served full
                  ∙ ap (choose (h.hash_func inner))
                      (at_other (key_of x all) kept ∙ ap (λ k. at_key k h.ring) same)
                  ∙ sym (get_node_lem h v inner ring_used some_key))
          ]
        ]

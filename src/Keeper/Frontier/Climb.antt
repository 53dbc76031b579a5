-- ===== src/Keeper/Frontier/Climb.antt =====
-- The loop computes the root of the whole tree from the stored frontier, and leaves the frontier of
-- the longer tree behind.
use native.Mathlib.Nat.{eq-or-lt_of_le}
use cosmos_nixpool.Prelude.{
  ℕ, zero, suc, ◌+◌, ◌-◌, ◌*◌, ◌/◌, ◌%◌, ◌≤◌, ◌<◌, ◌≡◌, ◌≢◌, refl, sym, ap, ap₂, ◌∙◌, true, false,
  some, Bytes, ◌⊎◌, ◌==◌, if◌then◌else◌, arith, inl, inr, Bool-cases,
}
use cosmos_nixpool.External.{External, IsLawful}
use cosmos_nixpool.Field.{to_bytes}
use cosmos_nixpool.Field.Canonical.{set_bytes-to_bytes}
use cosmos_nixpool.Tree.{shift, shift_mono, node, node_local, node-empty, node-lt}
use cosmos_nixpool.Types.Keys.{Key}
use cosmos_nixpool.Types.Keys.Equality.{key_equal}
use cosmos_nixpool.Store.{Store, get, set, get-set_self, get-set_ne}
use cosmos_nixpool.Keeper.Frontier.{left_sibling, climb}

-- The leaf function with one leaf added.
abbrev pub with_leaf : (ℕ → ℕ) → ℕ → ℕ → ℕ → ℕ
with_leaf leaf n c i = if i == n then c else leaf i

module _ (ext : External) (key : ℕ → Key) where
  -- Where the loop does not reach, the store is untouched.
  pub climb_frame :
      (levels level idx current : ℕ) (s : Store) (k : Key)
      → ((l : ℕ) → level ≤ l → key_equal (key l) k ≡ false)
      → get (climb ext key levels level idx current s).1 k ≡ get s k
  unfolding climb
  climb_frame zero level idx current s k h = refl
  climb_frame (suc levels) level idx current s k h =
      let s1 = set (key level) (to_bytes current) s in
      ground (
        arith,
        climb_frame levels (suc level) (idx / 2) (ext.hash2 current (ext.zero_hash level)) s1 k
            (λ l hl. h l (omega arith)),
        climb_frame levels (suc level) (idx / 2)
            (ext.hash2 (left_sibling ext (get s (key level))) current) s k
            (λ l hl. h l (omega arith)),
        get-set_ne s (key level) k (to_bytes current) (h level (omega arith)),
      )

module _ (ext : External) (law : IsLawful ext) (key : ℕ → Key)
    (key_ne : (l m : ℕ) → l ≢ m → key_equal (key l) (key m) ≡ false) (leaf : ℕ → ℕ)
    (leaf_bound : (i : ℕ) → leaf i < ext.modulus) (n : ℕ)
    (empty_above : (i : ℕ) → n ≤ i → leaf i ≡ ext.zero_hash 0) (c : ℕ)
    (c_bound : c < ext.modulus) where
  abbrev grown : ℕ → ℕ
  grown = with_leaf leaf n c

  grown_bound : (i : ℕ) → grown i < ext.modulus
  grown_bound i = ground (arith, leaf_bound i)

  -- The stored left siblings at the levels from `level` on are the nodes left of the path.
  abbrev Siblings : ℕ → Store → Type 0
  Siblings level s =
      (l : ℕ)
      → level ≤ l
      → shift l n % 2 ≡ 1
      → left_sibling ext (get s (key l)) ≡ node ext leaf l (shift l n - 1)

  -- A node beside the path is the same in both trees.
  beside : (l j : ℕ) → j ≢ shift l n → node ext grown l j ≡ node ext leaf l j
  beside l j ne = node_local ext grown leaf l j (λ i e. ground arith)

  -- The right sibling of a node on the path is empty.
  right_empty : (l : ℕ) → node ext grown l (shift l n + 1) ≡ ext.zero_hash l
  right_empty l =
      node-empty ext law grown l (shift l n + 1)
        (λ i e. ground (arith, shift_mono l i n, empty_above i))

  step_left :
      (l : ℕ)
      → shift l n % 2 ≡ 0
      → ext.hash2 (node ext grown l (shift l n)) (ext.zero_hash l)
        ≡ node ext grown (suc l) (shift (suc l) n)
  unfolding node shift
  step_left l even =
      let e : shift l n ≡ 2 * (shift l n / 2) = omega arith in
      ap₂ ext.hash2 (ap (node ext grown l) e)
        (sym (right_empty l) ∙ ap (λ (j : ℕ). node ext grown l (j + 1)) e)

  step_right :
      (l : ℕ)
      → shift l n % 2 ≡ 1
      → ext.hash2 (node ext leaf l (shift l n - 1)) (node ext grown l (shift l n))
        ≡ node ext grown (suc l) (shift (suc l) n)
  unfolding node shift
  step_right l odd =
      let e : shift l n - 1 ≡ 2 * (shift l n / 2) = omega arith in
      let f : shift l n ≡ 2 * (shift l n / 2) + 1 = omega arith in
      ap₂ ext.hash2 (sym (beside l (shift l n - 1) (omega arith)) ∙ ap (node ext grown l) e)
        (ap (node ext grown l) f)

  Siblings-set :
      (level : ℕ) (b : Bytes) (s : Store)
      → Siblings level s
      → Siblings (suc level) (set (key level) b s)
  Siblings-set level b s sib l hl odd =
      rw (get-set_ne s (key level) (key l) b (key_ne level l (omega arith)))
        (sib l (omega arith) odd)

  -- The loop from a level of the path on.
  abbrev climb_from : ℕ → ℕ → Store → ℕ × Store
  climb_from levels level s =
      climb ext key levels level (shift level n) (node ext grown level (shift level n)) s

  climb_left :
      (levels level : ℕ) (s : Store)
      → (shift level n % 2 == 0) ≡ true
      → climb_from (suc levels) level s
        ≡ climb_from levels
            (suc level)
            (set (key level) (to_bytes (node ext grown level (shift level n))) s)
  unfolding climb shift
  climb_left levels level s even = rw even (
      ap
        (λ v.
          climb ext key levels (suc level) (shift level n / 2) v
            (set (key level) (to_bytes (node ext grown level (shift level n))) s))
        (step_left level (ground arith)))

  climb_right :
      (levels level : ℕ) (s : Store)
      → Siblings level s
      → (shift level n % 2 == 0) ≡ false
      → climb_from (suc levels) level s ≡ climb_from levels (suc level) s
  unfolding climb shift
  climb_right levels level s sib odd =
      let bit : shift level n % 2 ≡ 1 = ground arith in
      rw (odd, sib level (omega arith) bit)
        (ap (λ v. climb ext key levels (suc level) (shift level n / 2) v s) (step_right level bit))

  -- From a level on, the loop returns the root of the tree with the new leaf.
  pub climb-eq-node :
      (levels level depth : ℕ) (s : Store)
      → level + levels ≡ depth
      → Siblings level s
      → (climb_from levels level s).0 ≡ node ext grown depth (shift depth n)
  unfolding climb
  climb-eq-node zero level depth s e sib =
      let here : level ≡ depth = omega arith in ap (λ (d : ℕ). node ext grown d (shift d n)) here
  climb-eq-node (suc levels) level depth s e sib = elim (Bool-cases (shift level n % 2 == 0)) [
    | inl even ↦
        let s1 = set (key level) (to_bytes (node ext grown level (shift level n))) s in
        ap (λ (r : ℕ × Store). r.0) (climb_left levels level s even)
        ∙ climb-eq-node levels (suc level) depth s1 (omega arith) (Siblings-set level _ s sib)
    | inr odd ↦
        ap (λ (r : ℕ × Store). r.0) (climb_right levels level s sib odd)
        ∙ climb-eq-node levels (suc level) depth s (omega arith) (λ l hl. sib l (omega arith))
  ]

  -- What the loop leaves at a level: the old sibling where the path turns right, and the node on the
  -- path where it turns left.
  abbrev Stored : Store → Store → ℕ → Type 0
  Stored s s' l =
      (shift l n % 2 ≡ 1 → get s' (key l) ≡ get s (key l))
      × (shift l n % 2 ≡ 0 → get s' (key l) ≡ some (to_bytes (node ext grown l (shift l n))))

  -- The levels above leave the level below alone.
  frame_below :
      (levels level : ℕ) (s : Store)
      → get (climb_from levels (suc level) s).1 (key level) ≡ get s (key level)
  frame_below levels level s =
      climb_frame ext key levels (suc level) (shift (suc level) n) _ s (key level)
        (λ l hl. key_ne l level (omega arith))

  Stored-left :
      (levels level l : ℕ) (s : Store)
      → (shift level n % 2 == 0) ≡ true
      → level ≤ l
      → (let s1 = set (key level) (to_bytes (node ext grown level (shift level n))) s in
          level < l → Stored s1 (climb_from levels (suc level) s1).1 l)
      → (let s1 = set (key level) (to_bytes (node ext grown level (shift level n))) s in
          Stored s (climb_from levels (suc level) s1).1 l)
  Stored-left levels level l s even lo above =
      let b = to_bytes (node ext grown level (shift level n)) in
      let s1 = set (key level) b s in
      elim (eq-or-lt_of_le lo) [
        | inl here ↦ rw (sym here) (
          λ bit. absurd (ground arith),
          λ _. frame_below levels level s1 ∙ get-set_self s (key level) b,
        )
        | inr later ↦ (
          λ bit.
              (above later).0 bit
              ∙ get-set_ne s (key level) (key l) b (key_ne level l (omega arith)),
          (above later).1,
        )
      ]

  Stored-right :
      (levels level l : ℕ) (s : Store)
      → (shift level n % 2 == 0) ≡ false
      → level ≤ l
      → (level < l → Stored s (climb_from levels (suc level) s).1 l)
      → Stored s (climb_from levels (suc level) s).1 l
  Stored-right levels level l s odd lo above = elim (eq-or-lt_of_le lo) [
    | inl here ↦ rw (sym here) (λ bit. frame_below levels level s, λ bit. absurd (ground arith))
    | inr later ↦ above later
  ]

  climb-Stored :
      (levels level l : ℕ) (s : Store)
      → Siblings level s
      → level ≤ l
      → l < level + levels
      → Stored s (climb_from levels level s).1 l
  climb-Stored zero level l s sib lo hi = absurd (omega arith)
  climb-Stored (suc levels) level l s sib lo hi = elim (Bool-cases (shift level n % 2 == 0)) [
    | inl even ↦
        let s1 = set (key level) (to_bytes (node ext grown level (shift level n))) s in
        rw (climb_left levels level s even) (
          Stored-left levels level l s even lo (λ later.
            climb-Stored levels (suc level) l s1 (Siblings-set level _ s sib) (omega arith)
              (omega arith)))
    | inr odd ↦ rw (climb_right levels level s sib odd) (
        Stored-right levels level l s odd lo (λ later.
          climb-Stored levels (suc level) l s (λ m hm. sib m (omega arith)) (omega arith)
            (omega arith)))
  ]

  -- Adding one to the leaf count turns a level's bit on only where it was off, and moves the
  -- position by at most one.
  shift-suc : (l : ℕ) → (shift l (n + 1) ≡ shift l n) ⊎ (shift l (n + 1) ≡ shift l n + 1)
  unfolding shift
  shift-suc zero = inr refl
  shift-suc (suc l) = ground (arith, shift-suc l)

  -- After the loop the stored siblings are those of the longer tree.
  pub climb-Siblings :
      (depth : ℕ) (s : Store)
      → Siblings 0 s
      → (l : ℕ) → l < depth
      → shift l (n + 1) % 2 ≡ 1
      → left_sibling ext (get (climb_from depth 0 s).1 (key l))
        ≡ node ext grown l (shift l (n + 1) - 1)
  climb-Siblings depth s sib l hl bit =
      let (right, left) = climb-Stored depth 0 l s sib (omega arith) (omega arith) in
      elim (shift-suc l) [
        | inl same ↦
            let odd : shift l n % 2 ≡ 1 = omega arith in
            ap (left_sibling ext) (right odd)
            ∙ sib l (omega arith) odd
            ∙ sym (beside l (shift l n - 1) (omega arith))
            ∙ ap (λ (j : ℕ). node ext grown l (j - 1)) (sym same)
        | inr next ↦
            let here : shift l n ≡ shift l (n + 1) - 1 = omega arith in
            ap (left_sibling ext) (left (omega arith))
            ∙ set_bytes-to_bytes ext law (node ext grown l (shift l n))
                (node-lt ext law grown grown_bound l (shift l n))
            ∙ ap (node ext grown l) here
      ]

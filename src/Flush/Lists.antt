-- ===== src/Flush/Lists.antt =====
-- The marks of a list, through its operations.
use pg_redis.Base.{
  ◌+◌, ◌^◌, ◌<◌, ◌≡◌, refl, sym, ap, subst, ◌∙◌, inl, inr, Bool, true, false, Option, none, some,
  List, [], ◌∷◌, length, if◌then◌else◌, if_true, if_false, Bytes, arith, Bool-cases,
}
use pg_redis.Base.Int.{ℤ, pos, negsuc, eq_ℤ, eq_ℤ_refl, ◌<ℤ◌, eq_ℤ→≡}
use pg_redis.Types.{list_value}
use pg_redis.ListValue.{
  Node, Chain, new_node, sizeof_node, record_pending_delete, list_lpush, list_rpush, list_lpop,
  list_rpop,
}
use pg_redis.ListValue.Ordinals.{Rises}
use pg_redis.ListValue.Push.{IsList, Ordered, list_lpush-Pushes, list_rpush-Pushes}
use pg_redis.ListValue.Pop.{PopsTo, at_front, at_back, list_lpop-PopsTo, list_rpop-PopsTo}
use pg_redis.Durable.{Tables}
use pg_redis.Flush.Vectors.{node_at, AreDistinct, has_ord}
use pg_redis.Flush.Commit.{ItemTracked, Tracks}

lt-eq_ℤ : (a b : ℤ) → a <ℤ b → (eq_ℤ a b ≡ false) × (eq_ℤ b a ≡ false)
lt-eq_ℤ (pos m) (pos n) l = ground arith
lt-eq_ℤ (pos m) (negsuc n) l = ground arith
lt-eq_ℤ (negsuc m) (pos n) l = ground arith
lt-eq_ℤ (negsuc m) (negsuc n) l = ground arith

lt_trans : (a b c : ℤ) → a <ℤ b → b <ℤ c → a <ℤ c
lt_trans a b c h k = omega arith

below-node_at : (o lo hi : ℤ) (ns : List Node) → Rises lo ns hi → o <ℤ lo → node_at o ns ≡ none
unfolding Rises node_at
below-node_at o lo hi [] r l = absurd r
below-node_at o lo hi (n ∷ []) r l =
    rw ((lt-eq_ℤ o n.ord (subst (λ (x : ℤ). o <ℤ x) (sym r.0) l)).1) refl
below-node_at o lo hi (n ∷ m ∷ ns) r l =
    let first = subst (λ (x : ℤ). o <ℤ x) (sym r.0) l in
    rw ((lt-eq_ℤ o n.ord first).1)
      (below-node_at o m.ord hi (m ∷ ns) r.2 (lt_trans o n.ord m.ord first r.1))

-- Ordinals that rise are distinct.
Rises-AreDistinct : (lo hi : ℤ) (ns : List Node) → Rises lo ns hi → AreDistinct ns
unfolding Rises AreDistinct node_at
Rises-AreDistinct lo hi [] r = tt
Rises-AreDistinct lo hi (n ∷ []) r = (refl, tt)
Rises-AreDistinct lo hi (n ∷ m ∷ ns) r =
    (below-node_at n.ord m.ord hi (m ∷ ns) r.2 r.1, Rises-AreDistinct m.ord hi (m ∷ ns) r.2)

Ordered-AreDistinct : (b : Bool) (lo hi : ℤ) (ns : List Node) → Ordered b lo ns hi → AreDistinct ns
unfolding AreDistinct
Ordered-AreDistinct b lo hi [] h = tt
Ordered-AreDistinct b lo hi (n ∷ ns) h = Rises-AreDistinct lo hi (n ∷ ns) h.1

IsList-AreDistinct : (l : Chain) → IsList l → AreDistinct l.nodes
IsList-AreDistinct l v = Ordered-AreDistinct l.ord_initialized l.min_ord l.max_ord l.nodes v.ordered

-- The nodes big are the nodes small with one more.
record Adds (n : Node) (small big : List Node) : Type 0 where
  looks : (o : ℤ) → node_at o big ≡ (if eq_ℤ n.ord o then some n else node_at o small)
  fresh : node_at n.ord small ≡ none

front-Adds : (n : Node) (ns : List Node) → AreDistinct (at_front n ns) → Adds n ns (at_front n ns)
unfolding node_at AreDistinct
front-Adds n ns d = record { looks = λ o. refl; fresh = d.0 }

if_none : (b : Bool) (n : Node) (o : Option Node) → (if b then some n else o) ≡ none → b ≡ false
if_none true n o e = cc
if_none false n o e = refl

back-looks :
    (n : Node) (ns : List Node)
    → AreDistinct (at_back n ns)
    → ((o : ℤ) → node_at o (at_back n ns) ≡ (if eq_ℤ n.ord o then some n else node_at o ns))
      × (node_at n.ord ns ≡ none)
unfolding node_at AreDistinct
back-looks n [] d = (λ o. refl, refl)
back-looks n (m ∷ ns) d =
    let ih = back-looks n ns d.1 in
    let ne : eq_ℤ n.ord m.ord ≡ false = if_none (eq_ℤ n.ord m.ord) n _ (sym (ih.0 m.ord) ∙ d.0) in
    (
      λ o. elim (Bool-cases (eq_ℤ m.ord o)) [
        | inl e ↦
            let q : eq_ℤ n.ord o ≡ false = ap (eq_ℤ n.ord) (sym (eq_ℤ→≡ m.ord o e)) ∙ ne in
            rw (e, q) refl
        | inr e ↦ rw e (ih.0 o)
      ],
      elim (Bool-cases (eq_ℤ m.ord n.ord)) [
        | inl e ↦
            let q : eq_ℤ m.ord m.ord ≡ false =
              ap (λ (x : ℤ). eq_ℤ x m.ord) (eq_ℤ→≡ m.ord n.ord e) ∙ ne in
            let r = eq_ℤ_refl m.ord in cc
        | inr e ↦ rw e ih.1
      ],
    )

back-Adds : (n : Node) (ns : List Node) → AreDistinct (at_back n ns) → Adds n ns (at_back n ns)
back-Adds n ns d = let b = back-looks n ns d in record { looks = b.0; fresh = b.1 }

tracked_eq :
    (x x' : Option Node) (b b' : Bool) (d : Option (Option Bytes))
    → x' ≡ x
    → b' ≡ b
    → ItemTracked x b d
    → ItemTracked x' b' d
tracked_eq x x' b b' d e q h =
    subst (λ (y : Option Node). ItemTracked y b' d) (sym e)
      (subst (λ (c : Bool). ItemTracked x c d) (sym q) h)

tracked_new :
    (n : Node) (b : Bool) (d : Option (Option Bytes))
    → n.pending_insert ≡ true
    → (ItemTracked none b d → ItemTracked (some n) b d)
      × (ItemTracked (some n) b d → ItemTracked none b d)
tracked_new n b d e = (λ h. rw e h, λ h. rw e at h)

passed :
    (o : ℤ) (n : Node) (ords : List ℤ)
    → eq_ℤ n.ord o ≡ false
    → has_ord o (record_pending_delete n ords) ≡ has_ord o ords
unfolding has_ord
passed o n ords e = elim (Bool-cases n.pending_insert) [
  | inl new ↦ rw new refl
  | inr old ↦ rw (old, e) refl
]

module _ (k : Bytes) (t : Tables) (l : Chain) (tracks : Tracks k (list_value (some l)) t) where
  -- A new node with an ordinal of its own.
  added-Tracks :
      (l' : Chain) (n : Node)
      → AreDistinct l'.nodes
      → Adds n l.nodes l'.nodes
      → n.pending_insert ≡ true
      → l'.pending_delete_ords ≡ l.pending_delete_ords
      → Tracks k (list_value (some l')) t
  added-Tracks l' n d a new same = (
    d,
    λ o.
        let row = t.list_items k o in
        let b = has_ord o l.pending_delete_ords in
        elim (Bool-cases (eq_ℤ n.ord o)) [
          | inl e ↦
              let gone : node_at o l.nodes ≡ none =
                ap (λ (x : ℤ). node_at x l.nodes) (sym (eq_ℤ→≡ n.ord o e)) ∙ a.fresh in
              tracked_eq (some n) (node_at o l'.nodes) b (has_ord o l'.pending_delete_ords) row
                (a.looks o ∙ if_true _ _ e) (ap (has_ord o) same)
                ((tracked_new n b row new).0
                  (tracked_eq (node_at o l.nodes) none b b row (sym gone) refl (tracks.1 o)))
          | inr e ↦
              tracked_eq (node_at o l.nodes) (node_at o l'.nodes) b
                (has_ord o l'.pending_delete_ords) row (a.looks o ∙ if_false _ _ e)
                (ap (has_ord o) same) (tracks.1 o)
        ],
  )

  -- A node taken out.
  removed-Tracks :
      (l' : Chain) (n : Node)
      → AreDistinct l'.nodes
      → Adds n l'.nodes l.nodes
      → l'.pending_delete_ords ≡ record_pending_delete n l.pending_delete_ords
      → Tracks k (list_value (some l')) t
  unfolding has_ord
  removed-Tracks l' n d a ords = (
    d,
    λ o.
        let row = t.list_items k o in
        let b = has_ord o l.pending_delete_ords in
        let b' = has_ord o l'.pending_delete_ords in
        elim (Bool-cases (eq_ℤ n.ord o)) [
          | inl e ↦
              let gone : node_at o l'.nodes ≡ none =
                ap (λ (x : ℤ). node_at x l'.nodes) (sym (eq_ℤ→≡ n.ord o e)) ∙ a.fresh in
              let there : node_at o l.nodes ≡ some n = a.looks o ∙ if_true _ _ e in
              elim (Bool-cases n.pending_insert) [
                | inl new ↦
                    tracked_eq none (node_at o l'.nodes) b b' row gone
                      (ap (has_ord o) (ords ∙ if_true _ _ new))
                      ((tracked_new n b row new).1 (
                        tracked_eq (node_at o l.nodes) (some n) b b row (sym there) refl
                          (tracks.1 o)))
                | inr old ↦
                    tracked_eq none (node_at o l'.nodes) true b' row gone
                      (ap (has_ord o) (ords ∙ if_false _ _ old) ∙ rw e refl) (inl refl)
              ]
          | inr e ↦
              tracked_eq (node_at o l.nodes) (node_at o l'.nodes) b b' row
                (sym (a.looks o ∙ if_false _ _ e))
                (ap (has_ord o) ords ∙ passed o n l.pending_delete_ords e) (tracks.1 o)
        ],
  )

-- What a call leaves of the list.
abbrev pub TracksChain : Bytes → Tables → Chain → Type 0
TracksChain k t l = IsList l × Tracks k (list_value (some l)) t

abbrev pub TracksPopped : Bytes → Tables → Option (Bytes × Chain) → Type 0
TracksPopped k t none = Unit
TracksPopped k t (some (value, l)) = TracksChain k t l

pub front_popped :
    (k : Bytes) (t : Tables) (l : Chain) (r : Option (Bytes × Chain))
    → IsList l
    → Tracks k (list_value (some l)) t
    → PopsTo at_front l r
    → TracksPopped k t r
front_popped k t l none v tracks p = tt
front_popped k t l (some (x, l')) v tracks p =
    let d = subst AreDistinct p.nodes (IsList-AreDistinct l v) in
    (
      p.list,
      removed-Tracks k t l tracks l' p.node (IsList-AreDistinct l' p.list)
          (subst (Adds p.node l'.nodes) (sym p.nodes) (front-Adds p.node l'.nodes d)) p.ords,
    )

pub back_popped :
    (k : Bytes) (t : Tables) (l : Chain) (r : Option (Bytes × Chain))
    → IsList l
    → Tracks k (list_value (some l)) t
    → PopsTo at_back l r
    → TracksPopped k t r
back_popped k t l none v tracks p = tt
back_popped k t l (some (x, l')) v tracks p =
    let d = subst AreDistinct p.nodes (IsList-AreDistinct l v) in
    (
      p.list,
      removed-Tracks k t l tracks l' p.node (IsList-AreDistinct l' p.list)
          (subst (Adds p.node l'.nodes) (sym p.nodes) (back-Adds p.node l'.nodes d)) p.ords,
    )

-- Pushing and popping at either end of a list whose changes since its rows were written are marked
-- leaves such a list, where its bytes stay below 2 ^ 64.
pub list_ops-Tracks :
    (k : Bytes) (t : Tables) (l : Chain) (value : Bytes)
    → IsList l
    → l.memory_usage + (sizeof_node + length value) < 2 ^ 64
    → Tracks k (list_value (some l)) t
    → TracksChain k t (list_lpush l value)
      × TracksChain k t (list_rpush l value)
      × TracksPopped k t (list_lpop l)
      × TracksPopped k t (list_rpop l)
list_ops-Tracks k t l value v room tracks =
    let f = list_lpush-Pushes l value v room in
    let b = list_rpush-Pushes l value v room in
    let fd = IsList-AreDistinct (list_lpush l value) f.list in
    let bd = IsList-AreDistinct (list_rpush l value) b.list in
    (
      (
        f.list,
        added-Tracks k t l tracks (list_lpush l value) (new_node f.ord value) fd
            (subst (Adds (new_node f.ord value) l.nodes) (sym f.nodes)
              (front-Adds (new_node f.ord value) l.nodes (subst AreDistinct f.nodes fd)))
            refl f.ords_kept,
      ),
      (
        b.list,
        added-Tracks k t l tracks (list_rpush l value) (new_node b.ord value) bd
            (subst (Adds (new_node b.ord value) l.nodes) (sym b.nodes)
              (back-Adds (new_node b.ord value) l.nodes (subst AreDistinct b.nodes bd)))
            refl b.ords_kept,
      ),
      front_popped k t l (list_lpop l) v tracks (list_lpop-PopsTo l v),
      back_popped k t l (list_rpop l) v tracks (list_rpop-PopsTo l v),
    )

-- ===== src/Master/State/Placement.antt =====
-- Where the objects of crates/master/src/state.rs lie: the replicas of different objects have no
-- byte of a node in common.
use mooncache.Prelude.{
  ℕ, ◌≡◌, ◌≢◌, sym, subst, ◌∙◌, inl, inr, List, [], ◌∷◌, none, some, All, All-imp, lookup, insert,
  lookup-insert_inv,
}
use mooncache.Common.{ObjectKey, object_key_eq}
use mooncache.Master.Object.{ReplicaDescriptor, CacheObjectMeta}
use mooncache.Master.Allocator.{MountedSegment}
use mooncache.Master.State.Accounting.{Objects}
use mooncache.Master.State.Spans.{
  Distinct, IsBelow, Disjoint, claimed, remaining, claim-Distinct, claim-IsBelow,
}

-- Every replica of the one list is disjoint from every replica of the other.
abbrev pub AllDisjoint : List ReplicaDescriptor → List ReplicaDescriptor → Type 0
AllDisjoint qs rs = All (λ q. All (Disjoint q) rs) qs

pub record IsPlaced (objects : Objects) (segments : List MountedSegment) : Type 0 where
  pub below :
      (k : ObjectKey) (object : CacheObjectMeta)
      → lookup k objects ≡ some object
      → All (λ q. IsBelow q segments) object.replicas
  pub apart :
      (k k' : ObjectKey) (object object' : CacheObjectMeta)
      → k ≢ k'
      → lookup k objects ≡ some object
      → lookup k' objects ≡ some object'
      → AllDisjoint object.replicas object'.replicas

-- Objects come and go, but none is new and none moves.
abbrev pub Keeps : Objects → Objects → Type 0
Keeps before after =
    (k : ObjectKey) (object' : CacheObjectMeta)
    → lookup k after ≡ some object'
    → (object : CacheObjectMeta) × (lookup k before ≡ some object)
      × (object'.replicas ≡ object.replicas)

pub Keeps-IsPlaced :
    (before after : Objects) (segments : List MountedSegment)
    → Keeps before after
    → IsPlaced before segments
    → IsPlaced after segments
Keeps-IsPlaced before after segments keeps p = record {
  below = λ k object' found.
      let (object, old, same) = keeps k object' found in
      subst (All (λ q. IsBelow q segments)) (sym same) (p.below k object old);
  apart = λ k k' object object' differ found found'.
      let (o, old, same) = keeps k object found in
      let (o', old', same') = keeps k' object' found' in
      rw (same, same') (p.apart k k' o o' differ old old');
}

Disjoint-sym : (q r : ReplicaDescriptor) → Disjoint q r → Disjoint r q
Disjoint-sym q r h same = elim (h (sym same)) [ inl below ↦ inr below | inr above ↦ inl above ]

All-pair :
    (q : ReplicaDescriptor) (rs : List ReplicaDescriptor) (qs : List ReplicaDescriptor)
    → All (Disjoint q) rs
    → All (λ r. All (Disjoint r) qs) rs
    → All (λ r. All (Disjoint r) (q ∷ qs)) rs
All-pair q [] qs h k = tt
All-pair q (r ∷ rs) qs h k = ((Disjoint-sym q r h.0, k.0), All-pair q rs qs h.1 k.1)

All-nil : (rs : List ReplicaDescriptor) → All (λ r. All (Disjoint r) []) rs
All-nil [] = tt
All-nil (r ∷ rs) = (tt, All-nil rs)

AllDisjoint-sym : (qs rs : List ReplicaDescriptor) → AllDisjoint qs rs → AllDisjoint rs qs
AllDisjoint-sym [] rs h = All-nil rs
AllDisjoint-sym (q ∷ qs) rs h = All-pair q rs qs h.0 (AllDisjoint-sym qs rs h.1)

-- A new object on the claimed spans.
module _ (objects : Objects) (segments : List MountedSegment) (count len : ℕ) (key : ObjectKey)
    (object : CacheObjectMeta) (fresh : lookup key objects ≡ none)
    (there : object.replicas ≡ claimed count len segments) (single : Distinct segments)
    (p : IsPlaced objects segments) where
  old-IsBelow :
      (k : ObjectKey) (old : CacheObjectMeta)
      → lookup k objects ≡ some old
      → All
          (λ q.
            IsBelow q (remaining count len segments)
            × All (Disjoint q) (claimed count len segments))
          old.replicas
  old-IsBelow k old found =
      All-imp _ _ (λ q b. claim-IsBelow count len segments q b) old.replicas (p.below k old found)

  new_apart :
      (k : ObjectKey) (old : CacheObjectMeta)
      → lookup k objects ≡ some old
      → AllDisjoint old.replicas object.replicas
  new_apart k old found =
      subst (λ rs. AllDisjoint old.replicas rs) (sym there)
        (All-imp _ _ (λ q b. b.1) old.replicas (old-IsBelow k old found))

  pub claimed-IsPlaced : IsPlaced (insert key object objects) (remaining count len segments)
  claimed-IsPlaced = record {
    below = λ k o found. elim (lookup-insert_inv key k object o objects found) [
      | inl (_, same) ↦
          subst
            (λ (o : CacheObjectMeta).
              All (λ q. IsBelow q (remaining count len segments)) o.replicas)
            same
            (subst (All (λ q. IsBelow q (remaining count len segments))) (sym there)
              (claim-Distinct count len segments single).2)
      | inr (_, old) ↦ All-imp _ _ (λ q b. b.0) o.replicas (old-IsBelow k o old)
    ];
    apart = λ k k' o o' differ found found'. elim (lookup-insert_inv key k object o objects found) [
      | inl (here, same) ↦ elim (lookup-insert_inv key k' object o' objects found') [
        | inl (here', _) ↦ absurd (differ (sym here ∙ here'))
        | inr (_, old') ↦
            subst (λ (o : CacheObjectMeta). AllDisjoint o.replicas o'.replicas) same
              (AllDisjoint-sym o'.replicas object.replicas (new_apart k' o' old'))
      ]
      | inr (_, old) ↦ elim (lookup-insert_inv key k' object o' objects found') [
        | inl (_, same') ↦
            subst (λ (o' : CacheObjectMeta). AllDisjoint o.replicas o'.replicas) same'
              (new_apart k o old)
        | inr (_, old') ↦ p.apart k k' o o' differ old old'
      ]
    ];
  }

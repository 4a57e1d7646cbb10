-- ===== src/Resources/Objects.antt =====
-- What a name stands for, before and after an object is allocated.
use tnvme.Base.{
  ◌+◌, ◌≡◌, ◌≢◌, ◌⊎◌, inl, inr, refl, subst, true, false, ◌&&◌, not, Option, none, some, [], ◌∷◌,
  Result, ok, thrown, Option-cases, Bool-cases, arith,
}
use tnvme.Meta.{Kernel}
use tnvme.Resources.{
  ObjType, Object, Name, ObjRsrc, RsrcMngr, is_queue, cannot_end, name_eq, find, get_obj, store,
  alloc_with, unknown_type, ex_update, alloc_worker, alloc_named, alloc_obj,
}

name_eq_self : (n : Name) → name_eq n n ≡ true
unfolding name_eq
name_eq_self [] = refl
name_eq_self (a ∷ x) = ground (arith, name_eq_self x)

name_eq-eq : (m n : Name) → name_eq m n ≡ true → m ≡ n
unfolding name_eq
name_eq-eq [] [] h = refl
name_eq-eq [] (b ∷ y) h = absurd (ground arith)
name_eq-eq (a ∷ x) [] h = absurd (ground arith)
name_eq-eq (a ∷ x) (b ∷ y) h =
    let t : name_eq x y ≡ true = ground arith in
    let e : a ≡ b = ground arith in rw (e, name_eq-eq x y t) refl

name_ne : (m n : Name) → m ≢ n → name_eq m n ≡ false
name_ne m n h = elim (Bool-cases (name_eq m n)) [
  | inl t ↦ absurd (h (name_eq-eq m n t))
  | inr f ↦ f
]

module _ {ℓ} {D : Type ℓ} (k : Kernel D) (type : ObjType) (name : Name) (s : RsrcMngr D) where
  abbrev pub new_object : Object
  new_object = record { obj_type = type; identity = s.objects.next_identity; set_up = false }

  abbrev counted : ObjRsrc
  counted = record s.objects { next_identity = s.objects.next_identity + 1 }

  after_alloc : RsrcMngr D
  after_alloc = record s {
    objects = record {
      obj_grp_life = (name, new_object) ∷ s.objects.obj_grp_life;
      next_identity = s.objects.next_identity + 1;
    };
  }

  alloc_fresh :
      unknown_type type ≡ false
      → get_obj name s.objects ≡ none
      → alloc_named k type name s ≡ (ok (some new_object), after_alloc)
  unfolding alloc_named alloc_worker alloc_with store get_obj find after_alloc
  alloc_fresh u f = rw (u, f, name_eq_self name) refl

  alloc_taken :
      {o : Object}
      → unknown_type type ≡ false
      → get_obj name s.objects ≡ some o
      → alloc_named k type name s
        ≡ (ok none, record s { objects = counted; defined = s.defined && not (is_queue type) })
  unfolding alloc_named alloc_worker alloc_with store get_obj cannot_end
  alloc_taken u f = rw (u, f) (ground arith)

  alloc_unknown : unknown_type type ≡ true → alloc_named k type name s ≡ (thrown, ex_update k s)
  unfolding alloc_named alloc_worker alloc_with
  alloc_unknown u = rw u refl

  get_obj_after :
      (other : Name)
      → ((name ≡ other) × (get_obj other after_alloc.objects ≡ some new_object))
        ⊎ ((name ≢ other) × (get_obj other after_alloc.objects ≡ get_obj other s.objects))
  unfolding get_obj find after_alloc
  get_obj_after other = elim (Bool-cases (name_eq name other)) [
    | inl t ↦ inl (name_eq-eq name other t, rw t refl)
    | inr f ↦ inr ((λ e. eq_false_ne e f), rw f refl)
  ]
    where
      eq_false_ne : name ≡ other → name_eq name other ≡ false → ⊥
      eq_false_ne e f =
          let t : name_eq name other ≡ true =
            subst (λ t. name_eq name t ≡ true) e (name_eq_self name) in
          cc

  -- What AllocObj gives, for every type and name, and what GetObj then finds.
  abbrev pub Allocated : Name → Result (Option Object) × RsrcMngr D → Type ℓ
  Allocated other r =
      ((r.0 ≡ ok (some new_object))
        × (name ≢ [])
        × (get_obj name s.objects ≡ none)
        × (r.1.metadata ≡ s.metadata)
        × (r.1.defined ≡ s.defined)
        × (((name ≡ other) × (get_obj other r.1.objects ≡ some new_object))
            ⊎ ((name ≢ other) × (get_obj other r.1.objects ≡ get_obj other s.objects))))
      ⊎ (((r.0 ≡ thrown) × (name ≢ []) × (unknown_type type ≡ true) × (r.1 ≡ ex_update k s))
          ⊎ ((r.0 ≡ ok none)
              × (r.1.metadata ≡ s.metadata)
              × (r.1.objects.obj_grp_life ≡ s.objects.obj_grp_life)
              × (((name ≡ []) × (r.1.defined ≡ s.defined))
                  ⊎ ((get_obj name s.objects ≢ none)
                      × (unknown_type type ≡ false)
                      × (r.1.defined ≡ (s.defined && not (is_queue type)))))))

  after_alloc-Allocated :
      (other : Name)
      → name ≢ []
      → get_obj name s.objects ≡ none
      → Allocated other (ok (some new_object), after_alloc)
  unfolding after_alloc
  after_alloc-Allocated other n f = inl (refl, n, f, refl, refl, get_obj_after other)

  alloc_named-Allocated : (other : Name) → name ≢ [] → Allocated other (alloc_named k type name s)
  alloc_named-Allocated other n = elim (Bool-cases (unknown_type type)) [
    | inl u ↦ rw (alloc_unknown u) (inr (inl (refl, n, u, refl)))
    | inr u ↦ elim (Option-cases (get_obj name s.objects)) [
      | inl f ↦ rw (alloc_fresh u f) (after_alloc-Allocated other n f)
      | inr (o, f) ↦
          rw (alloc_taken u f) (inr (inr (refl, refl, refl, inr ((λ e. absurd (cc)), u, refl))))
    ]
  ]

-- AllocObj of a name that is not empty and is not in use returns a new object of the type, under
-- which GetObj then finds it, while GetObj of every other name and the metadata are kept; or it
-- throws, which it does only for a name that is not empty and a type that it cannot make, and then
-- the resources are what the constructor of the exception leaves; or it returns the null pointer,
-- which it does only for an empty name or one in use, and no entry and no metadata change, but the
-- program ends if the name is in use and the new object, which is then destroyed, is a queue.
pub alloc_obj-Allocated {ℓ} :
    {D : Type ℓ} (k : Kernel D) (type : ObjType) (name other : Name) (s : RsrcMngr D)
    → Allocated k type name s other (alloc_obj k type name s)
unfolding alloc_obj
alloc_obj-Allocated k type [] other s = inr (inr (refl, refl, refl, inl (refl, refl)))
alloc_obj-Allocated k type (c ∷ rest) other s =
    alloc_named-Allocated k type (c ∷ rest) s other (λ e. absurd (cc))

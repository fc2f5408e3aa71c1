-- ===== src/Runtime/Objects/Client/Safety.antt =====
-- What reference counting guarantees to code that uses the class objects of src/runtime/runtime.cpp.
use mathlib.Core.Option.{some-injective}
use aithon.Prelude.{
  ℕ, ◌+◌, ◌-◌, ◌≤◌, ◌<◌, ◌≡◌, ◌≢◌, ◌⊎◌, inl, inr, refl, sym, subst, ◌∙◌, Bool, true, false, Option,
  none, some, Bytes, arith, ℤ,
}
use aithon.Runtime.Objects.{
  null, HeapObject, Objects, find, runtime_retain, runtime_release, set_field,
  runtime_class_set_field_ptr, runtime_class_get_field_ptr,
}
use aithon.Runtime.Objects.Accesses.{old_word, set-PointerSet, set-NumberSet, get-PointerGot}
use aithon.Runtime.Objects.Calls.{Kind, create-Exact, release-FreedBy}
use aithon.Runtime.Objects.Changes.{Exact-ext, Exact-shift, retain-Retained}
use aithon.Runtime.Objects.Client.{
  Client, start, losing, Step, creates, retains, releases, sets_pointer, sets_number, keeps, Steps,
  here, more,
}
use aithon.Runtime.Objects.Counts.{Agrees, Exact}
use aithon.Runtime.Objects.Pointers.{Usable, Usable-refs}
use aithon.Runtime.Objects.Store.{one, total}

module _ (layout : Bytes → ℕ → Bool) where
  -- References of the code and lost ones.
  abbrev refs : Client → ℕ → ℕ
  refs c x = c.handles x + c.lost x

  abbrev Sound : Client → Type 0
  Sound c = Exact layout c.objects (refs c) (λ x. 0)

  used : (c : Client) (p : ℕ) → Usable layout c.handles p → Usable layout (refs c) p
  used c p (inl e) = inl e
  used c p (inr (ne, lt)) = inr (ne, omega arith)

  -- The objects after a call are those that the lemma on the call gives.
  Exact-same :
      (os us : Objects) (found : Option Objects) (r : ℕ → ℕ)
      → found ≡ some os
      → found ≡ some us
      → Exact layout us r (λ x. 0)
      → Exact layout os r (λ x. 0)
  Exact-same os us found r e f h =
      subst (λ ws. Exact layout ws r (λ x. 0)) (some-injective us os (sym f ∙ e)) h

  start-Sound : Sound start
  unfolding find total
  start-Sound = record { unique = tt; agrees = λ x ne. refl }

  retain-Sound :
      (c : Client) (v : ℕ) (os : Objects)
      → (v ≡ null) ⊎ ((v ≢ null) × (0 < total layout c.objects v + refs c v))
      → runtime_retain v c.objects ≡ some os
      → Sound c
      → Sound (record c { objects = os; handles = λ x. c.handles x + one v x })
  retain-Sound c v os u e h =
      let done = retain-Retained layout v c.objects (refs c) (λ x. 0) u h in
      Exact-ext layout os (λ x. refs c x + one v x) _ (λ x. 0) (λ x. 0) (λ x nx. omega arith)
        (λ x nx. refl)
        (Exact-same os done.after _ (λ x. refs c x + one v x) e done.returns done.exact)

  taken :
      (c : Client) (p x : ℕ)
      → Usable layout c.handles p
      → x ≢ null
      → (c.handles x - one p x) + one p x ≡ c.handles x
  taken c p x (inl e) nx = ground arith
  taken c p x (inr (ne, lt)) nx = ground arith

  release-Sound :
      (c : Client) (p : ℕ) (os : Objects)
      → Usable layout c.handles p
      → runtime_release p c.objects ≡ some os
      → Sound c
      → Sound (record {
        objects = os;
        handles = λ x. c.handles x - one p x;
        lost = losing layout p c os;
      })
  release-Sound c p os u e h =
      let done = release-FreedBy layout p c.objects (refs c) (used c p u) h in
      let same : done.after ≡ os = some-injective done.after os (sym done.returns ∙ e) in
      subst (λ us. Exact layout us (λ x. (c.handles x - one p x) + losing layout p c us x) (λ x. 0))
        same
        (Exact-shift layout done.after _ _ (λ x. 0 + one p x) (λ x. 0)
          (λ x nx. omega (arith, taken c p x u nx)) done.exact)

  set-Sound :
      (c : Client) (p : ℕ) (field_idx : ℤ) (v : ℕ) (os : Objects)
      → Usable layout c.handles p
      → Usable layout c.handles v
      → Kind layout c.objects p field_idx true
      → runtime_class_set_field_ptr p field_idx v c.objects ≡ some os
      → Sound c
      → Sound (record c {
        objects = os;
        lost = losing layout (old_word layout p field_idx c.objects) c os;
      })
  set-Sound c p field_idx v os up uv k e h =
      let done =
        set-PointerSet layout p field_idx v c.objects (refs c) (used c p up) (used c v uv) k h in
      let same : done.after ≡ os = some-injective done.after os (sym done.returns ∙ e) in
      subst
        (λ us.
          Exact layout us
            (λ x. c.handles x + losing layout (old_word layout p field_idx c.objects) c us x)
            (λ x. 0))
        same
        (Exact-ext layout done.after _ _ (λ x. 0) (λ x. 0) (λ x nx. omega arith) (λ x nx. refl)
          done.exact)

  Step-Sound : (c d : Client) → Step layout c d → Sound c → Sound d
  Step-Sound c _ (creates class_name num_fields a ne e) h =
      Exact-ext layout _ (λ x. refs c x + one a x) _ (λ x. 0) (λ x. 0) (λ x nx. omega arith)
        (λ x nx. refl) (create-Exact layout class_name num_fields a c.objects (refs c) ne e h)
  Step-Sound c _ (retains p os u e) h =
      retain-Sound c p os (Usable-refs layout c.objects (refs c) p (used c p u)) e h
  Step-Sound c _ (releases p os u e) h = release-Sound c p os u e h
  Step-Sound c _ (sets_pointer p field_idx v os up uv k e) h =
      set-Sound c p field_idx v os up uv k e h
  Step-Sound c _ (sets_number p field_idx word os u k e) h =
      let done = set-NumberSet layout p field_idx word c.objects (refs c) (used c p u) k h in
      Exact-same os done.after _ (refs c) e done.returns done.exact
  Step-Sound c _ (keeps p field_idx value os u k e f) h =
      let got = get-PointerGot layout p field_idx c.objects (refs c) (used c p u) k h in
      let same : got.value ≡ value = some-injective got.value value (sym got.returns ∙ e) in
      retain-Sound c value os
        (subst (λ v. (v ≡ null) ⊎ ((v ≢ null) × (0 < total layout c.objects v + refs c v))) same
          got.refers)
        f h

  Steps-Sound : (c d : Client) → Steps layout c d → Sound c → Sound d
  Steps-Sound c _ here h = h
  Steps-Sound c e (more d _ before last) h = Step-Sound d e last (Steps-Sound c d before h)

  -- After any calls from the start, an object that is there has a count that is not 0, and that is the
  -- number of the references to it: those of the code, those in the fields of the objects that are there,
  -- and those that were in fields of objects since freed. To an address with no object there is none.
  pub Steps-Agrees :
      (c : Client) (x : ℕ)
      → Steps layout start c
      → x ≢ null
      → Agrees (find x c.objects) (total layout c.objects x + (c.handles x + c.lost x)) 0
  Steps-Agrees c x steps ne = (Steps-Sound start c steps start-Sound).agrees x ne

  -- After any calls from the start, no call by code that has a reference to what it passes accesses an
  -- object that is freed: each retain, release, access to a reference field and write of a number field
  -- of the right kind returns, and so does the retain of what a reference field gives.
  pub Steps-returns :
      (c : Client) (p v w : ℕ) (i j : ℤ)
      → Steps layout start c
      → Usable layout c.handles p
      → Usable layout c.handles v
      → Kind layout c.objects p i true
      → Kind layout c.objects p j false
      → ((os : Objects) × (runtime_retain p c.objects ≡ some os))
        × (((os : Objects) × (runtime_release p c.objects ≡ some os))
            × (((os : Objects) × (runtime_class_set_field_ptr p i v c.objects ≡ some os))
                × (((os : Objects) × (set_field p j w c.objects ≡ some os))
                    × ((x : ℕ) × ((runtime_class_get_field_ptr p i c.objects ≡ some x)
                          × ((os : Objects) × (runtime_retain x c.objects ≡ some os)))))))
  Steps-returns c p v w i j steps up uv ki kj =
      let h = Steps-Sound start c steps start-Sound in
      let r : ℕ → ℕ = refs c in
      let retained =
        retain-Retained layout p c.objects r (λ x. 0)
          (Usable-refs layout c.objects r p (used c p up)) h in
      let released = release-FreedBy layout p c.objects r (used c p up) h in
      let pointer = set-PointerSet layout p i v c.objects r (used c p up) (used c v uv) ki h in
      let number = set-NumberSet layout p j w c.objects r (used c p up) kj h in
      let got = get-PointerGot layout p i c.objects r (used c p up) ki h in
      let kept = retain-Retained layout got.value c.objects r (λ x. 0) got.refers h in
      (
        (retained.after, retained.returns),
        (
          (released.after, released.returns),
          (
            (pointer.after, pointer.returns),
            (
              (number.after, number.returns),
              (got.value, (got.returns, (kept.after, kept.returns))),
            ),
          ),
        ),
      )

  Step-lost : (c d : Client) (x : ℕ) → Step layout c d → c.lost x ≤ d.lost x
  Step-lost c _ x (creates class_name num_fields a ne e) = omega arith
  Step-lost c _ x (retains p os u e) = omega arith
  Step-lost c _ x (releases p os u e) = omega arith
  Step-lost c _ x (sets_pointer p field_idx v os up uv k e) = omega arith
  Step-lost c _ x (sets_number p field_idx word os u k e) = omega arith
  Step-lost c _ x (keeps p field_idx value os u k e f) = omega arith

  Steps-lost : (c d : Client) (x : ℕ) → Steps layout c d → c.lost x ≤ d.lost x
  Steps-lost c _ x here = omega arith
  Steps-lost c e x (more d _ before last) =
      omega (arith, Steps-lost c d x before, Step-lost d e x last)

  Steps-append : (c d e : Client) → Steps layout c d → Steps layout d e → Steps layout c e
  Steps-append c d _ first here = first
  Steps-append c d f first (more e _ second last) = more e f (Steps-append c d e first second) last

  there :
      (found : Option HeapObject) (a b : ℕ)
      → Agrees found (a + b) 0
      → 0 < b
      → (o : HeapObject) × (found ≡ some o)
  there none a b e lt = absurd (omega arith)
  there (some o) a b e lt = (o, refl)

  -- When the calls from the start have freed an object whose fields referred to another one, that other
  -- one is there after any further calls: it is never freed.
  pub lost-find :
      (c d : Client) (x : ℕ)
      → Steps layout start c
      → Steps layout c d
      → x ≢ null
      → 0 < c.lost x
      → (o : HeapObject) × (find x d.objects ≡ some o)
  lost-find c d x before after ne lt =
      there (find x d.objects) (total layout d.objects x + d.handles x) (d.lost x)
        (subst (λ t. Agrees (find x d.objects) t 0) (omega arith)
          (Steps-Agrees d x (Steps-append start c d before after) ne))
        (let more_lost = Steps-lost c d x after in omega arith)

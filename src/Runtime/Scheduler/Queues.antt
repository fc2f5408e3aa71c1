-- ===== src/Runtime/Scheduler/Queues.antt =====
-- The run queues: taking from the front, adding at the back, and stealing half of one.
use aithon.Prelude.{
  ◌∙◌, ℕ, zero, suc, ◌/◌, ◌≤◌, ◌≡◌, ◌≢◌, ◌⊎◌, inl, inr, refl, sym, ap, false, some, List, [], ◌∷◌,
  ◌++◌, arith, ◌==◌, length, length-append, get_elem?, append_assoc, append-nil,
}
use aithon.Runtime.Scheduler.Choice.{get_elem?-update}
use aithon.Runtime.Scheduler.{Worker, Scheduler, update}
use aithon.Runtime.Scheduler.Rounds.{pop_back, move_back, steal_count, robbed, enriched, steal_work}

abbrev pub reverse : List ℕ → List ℕ
reverse [] = []
reverse (x ∷ xs) = reverse xs ++ x ∷ []

pop_back-append : (xs : List ℕ) (x : ℕ) → pop_back (xs ++ x ∷ []) ≡ some (xs, x)
unfolding pop_back
pop_back-append [] x = refl
pop_back-append (y ∷ ys) x = rw (pop_back-append ys x) refl

-- The loop carries over the actors at the back, the last one first.
move_back_lem :
    (moved keep thief : List ℕ)
    → move_back (length moved) thief (keep ++ reverse moved) ≡ (thief ++ moved, keep)
unfolding move_back
move_back_lem [] keep thief = rw (append-nil keep, append-nil thief) refl
move_back_lem (x ∷ moved) keep thief =
    rw
      (
        sym (append_assoc keep (reverse moved) (x ∷ [])),
        pop_back-append (keep ++ reverse moved) x,
        move_back,
      )
      (rw (move_back_lem moved keep (thief ++ x ∷ []), append_assoc thief (x ∷ []) moved) refl)

move_back_split :
    (n : ℕ) (thief victim keep moved : List ℕ)
    → victim ≡ keep ++ reverse moved
    → length moved ≡ n
    → move_back n thief victim ≡ (thief ++ moved, keep)
move_back_split n thief victim keep moved whole count =
    rw (whole, sym count) (move_back_lem moved keep thief)

last-cases : (xs : List ℕ) → (xs ≡ []) ⊎ ((ys : List ℕ) × (y : ℕ) × (xs ≡ ys ++ y ∷ []))
last-cases [] = inl refl
last-cases (x ∷ xs) = elim (last-cases xs) [
  | inl e ↦ inr ([], x, rw e refl)
  | inr (ys, y, e) ↦ inr (x ∷ ys, y, ap (λ r. x ∷ r) e)
]

split_back :
    (n : ℕ) (xs : List ℕ)
    → n ≤ length xs
    → (keep : List ℕ) × (moved : List ℕ) × (xs ≡ keep ++ reverse moved) × (length moved ≡ n)
split_back zero xs le = (xs, [], sym (append-nil xs), refl)
split_back (suc n) xs le = elim (last-cases xs) [
  | inl e ↦ absurd (empty_short e)
  | inr (ys, y, e) ↦
      let (keep, moved, whole, count) = split_back n ys (shorter ys y e) in
      (
        keep,
        y ∷ moved,
        e ∙ (ap (λ r. r ++ y ∷ []) whole ∙ append_assoc keep (reverse moved) (y ∷ [])),
        omega (arith, count),
      )
]
  where
    empty_short : xs ≡ [] → ⊥
    empty_short e = omega (arith, ap length e, le)

    shorter : (ys : List ℕ) (y : ℕ) → xs ≡ ys ++ y ∷ [] → n ≤ length ys
    shorter ys y e = omega (arith, ap length e, le, length-append ys (y ∷ []))

-- What a theft does to the two workers: half of the victim's actors, rounded down, go from the back
-- of its queue to the back of the thief's, the last one first, and the others keep their order.
pub record Robbery (thief victim thief' victim' : Worker) : Type 0 where
  pub keep : List ℕ
  pub moved : List ℕ
  pub whole : victim.run_queue ≡ keep ++ reverse moved
  pub half : length moved ≡ length victim.run_queue / 2
  pub thief_queue : thief'.run_queue ≡ thief.run_queue ++ moved
  pub victim_queue : victim'.run_queue ≡ keep

pub robbed-Robbery :
    (thief victim : Worker) → Robbery thief victim (enriched victim thief) (robbed victim)
unfolding robbed enriched
robbed-Robbery thief victim =
    let (keep, moved, whole, half) =
      split_back (steal_count victim) victim.run_queue (omega arith) in
    record {
      keep = keep;
      moved = moved;
      whole = whole;
      half = half;
      thief_queue =
          ap (λ r. r.0)
            (move_back_split (steal_count victim) thief.run_queue victim.run_queue keep moved whole
              half);
      victim_queue =
          ap (λ r. r.1)
            (move_back_split (steal_count victim) [] victim.run_queue keep moved whole half);
    }

pub get_elem?-update_other :
    (ws : List Worker) (i j : ℕ) (f : Worker → Worker)
    → i ≢ j
    → get_elem? (update ws i f) j ≡ get_elem? ws j
unfolding update
get_elem?-update_other [] i j f ne = refl
get_elem?-update_other (w ∷ ws) zero zero f ne = absurd (ne refl)
get_elem?-update_other (w ∷ ws) zero (suc j) f ne = refl
get_elem?-update_other (w ∷ ws) (suc i) zero f ne = refl
get_elem?-update_other (w ∷ ws) (suc i) (suc j) f ne =
    get_elem?-update_other ws i j f (λ e. ne (ap (λ n. suc n) e))

pub steal_work_lem :
    (s : Scheduler) (thief_id victim_id : ℕ) (victim : Worker)
    → thief_id ≢ victim_id
    → get_elem? s.workers victim_id ≡ some victim
    → (steal_work s thief_id victim_id).workers
      ≡ update (update s.workers victim_id robbed) thief_id (enriched victim)
unfolding steal_work
steal_work_lem s thief_id victim_id victim ne e =
    let differ : (thief_id == victim_id) ≡ false = ground arith in rw differ (rw e refl)

-- `steal_work` between two different workers is such a robbery, and touches no other worker.
pub steal_work-Robbery :
    (s : Scheduler) (thief_id victim_id : ℕ) (thief victim : Worker)
    → thief_id ≢ victim_id
    → get_elem? s.workers thief_id ≡ some thief
    → get_elem? s.workers victim_id ≡ some victim
    → (get_elem? (steal_work s thief_id victim_id).workers thief_id ≡ some (enriched victim thief))
      × (get_elem? (steal_work s thief_id victim_id).workers victim_id ≡ some (robbed victim))
      × Robbery thief victim (enriched victim thief) (robbed victim)
      × ((i : ℕ)
          → i ≢ thief_id
          → i ≢ victim_id
          → get_elem? (steal_work s thief_id victim_id).workers i ≡ get_elem? s.workers i)
steal_work-Robbery s thief_id victim_id thief victim ne et ev =
    rw (steal_work_lem s thief_id victim_id victim ne ev) (
      get_elem?-update _ thief_id (enriched victim) thief
          (victim_first thief_id (λ k. ne (sym k)) ∙ et),
      get_elem?-update_other _ thief_id victim_id (enriched victim) ne
          ∙ get_elem?-update s.workers victim_id robbed victim ev,
      robbed-Robbery thief victim,
      λ i nt nv.
          get_elem?-update_other _ thief_id i (enriched victim) (λ k. nt (sym k))
          ∙ victim_first i (λ k. nv (sym k)),
    )
  where
    victim_first :
        (i : ℕ)
        → victim_id ≢ i
        → get_elem? (update s.workers victim_id robbed) i ≡ get_elem? s.workers i
    victim_first i n = get_elem?-update_other s.workers victim_id i robbed n

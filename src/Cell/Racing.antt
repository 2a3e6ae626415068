-- ===== src/Cell/Racing.antt =====
-- pkg/cell/manager.go: calls of Ensure that race for the same keys agree on one cell for each, and a
-- cell that loses the race is closed.
use ai_gateway_epp.Cell.Moves.{update-keep}
use ai_gateway_epp.Cell.Race.{makes, Phase, misses, holds, Race}
use ai_gateway_epp.Cell.Invariant.{Registered}
use ai_gateway_epp.Cell.Model.{update, get, Plane, modify_cell}
use ai_gateway_epp.Cell.Manager.{Options, allocate_cell, close_cell}
use ai_gateway_epp.Base.{
  Str, ℕ, ◌≤◌, ◌<◌, ◌≡◌, ◌≢◌, ◌⊎◌, inl, inr, true, some, arith, ◌==◌, Bool-cases, str_eq_iff,
  insert, lookup-insert, none, str_eq_instance,
}

IsMaking : Phase → Type 0
IsMaking (makes k c) = Unit
IsMaking _ = ⊥

-- What holds between two steps, when the heap had n cells at the beginning.
pub record Orderly (n : ℕ) (r : Race) : Type 0 where
  pub placed : (k : Str) (c : ℕ) → get r.world k ≡ some c → Registered r.world k c
  pub held : (i : ℕ) (k : Str) (c : ℕ) → r.phases i ≡ holds k c → get r.world k ≡ some c
  pub made :
      (i : ℕ) (k : Str) (c : ℕ)
      → r.phases i ≡ makes k c
      → Registered r.world k c × ((j : Str) → get r.world j ≢ some c)
  pub own : (i j : ℕ) (k l : Str) (c : ℕ) → r.phases i ≡ makes k c → r.phases j ≡ makes l c → i ≡ j
  pub settled :
      (c : ℕ)
      → n ≤ c
      → c < r.world.next_cell
      → (get r.world (r.world.cells c).key ≡ some c)
        ⊎ (((r.world.cells c).closed ≡ true)
            ⊎ ((i : ℕ) × (r.phases i ≡ makes (r.world.cells c).key c)))

module _ (o : Options) (n : ℕ) (r : Race) (h : Orderly n r) (i : ℕ) where
  -- A step that changes the phase only.
  pub moved-Orderly :
      (p : Phase)
      → ((k : Str) (c : ℕ) → p ≡ holds k c → get r.world k ≡ some c)
      → ((k : Str) (c : ℕ) → p ≢ makes k c)
      → ((k : Str) (c : ℕ) → r.phases i ≢ makes k c)
      → Orderly n (record { world = r.world; phases = update r.phases i p })
  moved-Orderly p new quiet old = record {
    placed = h.placed;
    held = λ j k c.
        update-keep (λ q. q ≡ holds k c → get r.world k ≡ some c) r.phases i p j (λ e. new k c)
          (h.held j k c);
    made = λ j k c.
        update-keep
          (λ q. q ≡ makes k c → Registered r.world k c × ((l : Str) → get r.world l ≢ some c))
          r.phases i p j (λ e g. absurd (quiet k c g)) (h.made j k c);
    own = λ j j' k l c a b. ground (arith, h.own j j' k l c, quiet k c, quiet l c);
    settled = λ c a b. elim (h.settled c a b) [
      | inl e ↦ inl e
      | inr (inl e) ↦ inr (inl e)
      | inr (inr (j, e)) ↦ inr (inr (j, ground (arith, e, old (r.world.cells c).key c)))
    ];
  }

  allocate-Registered :
      (key : Str) (plane : Plane) (k : Str) (c : ℕ)
      → Registered r.world k c
      → Registered (allocate_cell r.world key plane) k c
  unfolding allocate_cell
  allocate-Registered key plane k c g = record {
    known = omega (arith, g.known);
    named = ground (arith, g.known, g.named);
    is_open = ground (arith, g.known, g.is_open);
  }

  pub allocated-Orderly :
      (key : Str) (plane : Plane)
      → r.phases i ≡ misses key
      → Orderly n (record {
        world = allocate_cell r.world key plane;
        phases = update r.phases i (makes key r.world.next_cell);
      })
  unfolding allocate_cell get
  allocated-Orderly key plane at = record {
    placed = λ k c e. allocate-Registered key plane k c (h.placed k c e);
    held = λ j k c e. ground (arith, h.held j k c);
    made = λ j k c e. elim (Bool-cases (i == j)) [
      | inl same ↦ (
        record {
          known = ground (arith, e, same);
          named = ground (arith, e, same);
          is_open = ground (arith, e, same);
        },
        λ l g. let q = h.placed l c g in let b = q.known in ground (arith, e, same, b),
      )
      | inr other ↦
          let q = h.made j k c (ground (arith, e, other)) in
          (allocate-Registered key plane k c q.0, q.1)
    ];
    own = λ j j' k l c a b. ground (arith, h.own j j' k l c, h.made j k c, h.made j' l c);
    settled = λ c a b. elim (Bool-cases (r.world.next_cell == c)) [
      | inl same ↦ inr (inr (i, ground (arith, same)))
      | inr other ↦ elim (h.settled c a (ground (arith, other, b))) [
        | inl e ↦ inl (ground (arith, other, e))
        | inr (inl e) ↦ inr (inl (ground (arith, other, e)))
        | inr (inr (j, e)) ↦ inr (inr (j, ground (arith, other, e, at)))
      ]
    ];
  }

module _ (n : ℕ) (r : Race) (h : Orderly n r) (i : ℕ) (key : Str) (c : ℕ)
    (at : r.phases i ≡ makes key c) where
  mine : Registered r.world key c
  mine = (h.made i key c at).0

  pub won-Orderly :
      get r.world key ≡ none
      → Orderly n (record {
        world = record r.world { registry = insert key c r.world.registry };
        phases = update r.phases i (holds key c);
      })
  unfolding get
  won-Orderly missing = record {
    placed = λ k d e.
        let l = lookup-insert key k c r.world.registry in
        record {
          known = ground (arith, l, str_eq_iff key k, mine.known, h.placed k d);
          named = ground (arith, l, str_eq_iff key k, mine.named, h.placed k d);
          is_open = ground (arith, l, str_eq_iff key k, mine.is_open, h.placed k d);
        };
    held = λ j k d e.
        ground (arith, e, h.held j k d, lookup-insert key k c r.world.registry, str_eq_iff key k);
    made = λ j k d e.
        let apart : i ≢ j = ground (arith, e) in
        let q = h.made j k d (ground (arith, e)) in
        (
          record { known = q.0.known; named = q.0.named; is_open = q.0.is_open },
          λ l g. ground (
            arith,
            g,
            q.1 l,
            lookup-insert key l c r.world.registry,
            str_eq_iff key l,
            h.own i j key k d,
            apart,
            at,
          ),
        );
    own = λ j j' k l d a b. ground (arith, h.own j j' k l d);
    settled = λ d a b. elim (h.settled d a b) [
      | inl e ↦ inl (
          ground (
            arith,
            e,
            lookup-insert key (r.world.cells d).key c r.world.registry,
            str_eq_iff key (r.world.cells d).key,
          ))
      | inr (inl e) ↦ inr (inl e)
      | inr (inr (j, e)) ↦ elim (Bool-cases (i == j)) [
        | inl same ↦ inl (
            ground (
              arith,
              e,
              same,
              at,
              lookup-insert key (r.world.cells d).key c r.world.registry,
              str_eq_iff key (r.world.cells d).key,
            ))
        | inr other ↦ inr (inr (j, ground (arith, e, other)))
      ]
    ];
  }

  pub lost-Orderly :
      (d : ℕ)
      → get r.world key ≡ some d
      → Orderly n (record {
        world = modify_cell r.world c close_cell;
        phases = update r.phases i (holds key d);
      })
  unfolding get close_cell
  lost-Orderly d found = record {
    placed = λ k e g.
        let q = h.placed k e g in
        let other : c ≢ e = λ s. (h.made i key c at).1 k (rw s g) in
        record {
          known = q.known;
          named = ground (arith, q.named);
          is_open = ground (arith, q.is_open, other);
        };
    held = λ j k e g. ground (arith, g, h.held j k e, found);
    made = λ j k e g.
        let apart : i ≢ j = ground (arith, g) in
        let q = h.made j k e (ground (arith, g)) in
        (
          record {
            known = q.0.known;
            named = ground (arith, q.0.named);
            is_open = ground (arith, q.0.is_open, apart, h.own i j key k e, g, at);
          },
          q.1,
        );
    own = λ j j' k l e a b. ground (arith, h.own j j' k l e);
    settled = λ e a b. elim (Bool-cases (c == e)) [
      | inl same ↦ inr (inl (ground (arith, same)))
      | inr other ↦ elim (h.settled e a b) [
        | inl g ↦ inl (ground (arith, g, other))
        | inr (inl g) ↦ inr (inl (ground (arith, g, other)))
        | inr (inr (j, g)) ↦ inr (inr (j, ground (arith, g, other, at)))
      ]
    ];
  }

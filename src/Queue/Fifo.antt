-- ===== src/Queue/Fifo.antt =====
-- The loops that move messages to the disk and back keep their order.
use xrootd_monitoring_shovel.Base.{
  ℕ, zero, suc, ◌≤◌, ◌<◌, ◌≡◌, refl, ap, ◌∙◌, List, [], ◌∷◌, ◌++◌, append_assoc, append-nil, some,
  length, arith, ◌⊎◌, inl, inr,
}
use xrootd_monitoring_shovel.Queue.Disk.{MessageStruct, Dque, Works}
use xrootd_monitoring_shovel.Queue.{write, write_all, read_all}

module _ (dque : Dque) (works : Works dque) where
  open dque use {Q, size, items, size_items, enqueue_items, dequeue_items}

  pub items-write : (m : MessageStruct) (q : Q) → items (write dque m q) ≡ items q ++ m ∷ []
  unfolding write
  items-write m q = let (q', e) = works.writes m q in rw (e, write) (enqueue_items m q q' e)

  pub items-write_all :
      (ms : List MessageStruct) (q : Q) → items (write_all dque ms q) ≡ items q ++ ms
  unfolding write_all
  items-write_all [] q = rw append-nil
  items-write_all (m ∷ ms) q =
      items-write_all ms (write dque m q) ∙ rw (items-write m q, append_assoc)

  pub List-cases :
      (q : Q)
      → (items q ≡ []) ⊎ ((m : MessageStruct) × (ms : List MessageStruct) × (items q ≡ m ∷ ms))
  List-cases q = go (items q) refl
    where
      go :
          (l : List MessageStruct)
          → items q ≡ l
          → (items q ≡ []) ⊎ ((m : MessageStruct) × (ms : List MessageStruct) × (items q ≡ m ∷ ms))
      go [] e = inl e
      go (m ∷ ms) e = inr (m, ms, e)

  abbrev pub AllRead : ℕ → Q → List MessageStruct → Type 0
  AllRead fuel q ms =
      (q' : Q) × (read_all dque fuel q ms ≡ some (q', ms ++ items q)) × (items q' ≡ [])

  read_all-stop :
      (fuel : ℕ) (q : Q) (ms : List MessageStruct)
      → size q ≡ 0
      → read_all dque (suc fuel) q ms ≡ some (q, ms)
  unfolding read_all
  read_all-stop fuel q ms e = ground arith

  read_all-step :
      (fuel : ℕ) (q q' : Q) (m : MessageStruct) (ms : List MessageStruct)
      → 0 < size q
      → dque.dequeue q ≡ some (m, q')
      → read_all dque (suc fuel) q ms ≡ read_all dque fuel q' (ms ++ m ∷ [])
  unfolding read_all
  read_all-step fuel q q' m ms h e = ground arith

  -- With fuel for each message, all messages come off the disk in their order.
  pub read_all_lem :
      (fuel : ℕ) (q : Q) (ms : List MessageStruct) → size q ≤ fuel → AllRead fuel q ms
  read_all_lem zero q ms h = elim (List-cases q) [
    | inl e ↦ (q, unfold read_all in rw (e, append-nil), e)
    | inr (m, r, e) ↦ absurd (omega (arith, size_items q, ap length e))
  ]
  read_all_lem (suc fuel) q ms h = elim (List-cases q) [
    | inl e ↦ (
      q,
      rw (e, append-nil) (read_all-stop fuel q ms (omega (arith, size_items q, ap length e))),
      e,
    )
    | inr (m, r, e) ↦
        let (q', d) = works.reads q m r e in
        let items_are = dequeue_items q q' m d in
        let (q'', rest, nothing) =
          read_all_lem fuel q' (ms ++ m ∷ [])
            (omega (arith, size_items q, size_items q', ap length items_are)) in
        (
          q'',
          read_all-step fuel q q' m ms (omega (arith, size_items q, ap length e)) d
              ∙ rest
              ∙ rw (items_are, append_assoc),
          nothing,
        )
  ]

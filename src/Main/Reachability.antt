-- ===== src/Main/Reachability.antt =====
-- The runs of a storage node: the table, the health message under way, and the end.
use distributed_file_system.Base.{
  ℕ, zero, suc, ◌≤◌, ◌≡◌, refl, sym, subst, ◌∙◌, ◌⊎◌, inl, inr, Bool, Bool-cases, true, false, not,
  ◌&&◌, ◌==◌, Option, none, some, List, [], ◌∷◌, length, drop, if◌then◌else◌, set, Bytes, arith,
}
use distributed_file_system.Disk.{Disk, IsPosix}
use distributed_file_system.Main.Held.{IsHeld, IsHeld-refl, length-IsHeld, harms-IsHeld}
use distributed_file_system.Proto.{FileMappings, Protobuf, HasSizes, health}
use distributed_file_system.State.{StorageStateOuter, IsValid, catalogue, length-catalogue}
use distributed_file_system.State.Encode.{
  snapshot-catalogue, return_current_state_encoded_in_protobufs, encode-pack,
}
use distributed_file_system.State.Destroy.{storage_state_init-IsValid}
use distributed_file_system.FileOperation.{Node}
use distributed_file_system.HandleNewChunk.{ConnectionInfo}
use distributed_file_system.HttpMain.{Connection, request_completed}
use distributed_file_system.HttpMain.Invariant.{Changed, answer_to_connection-Changed}
use distributed_file_system.Main.{harms_pending}
use distributed_file_system.Main.{
  System, started, Step, accepted, called, completed, not_started, stopped_serving, entered_recv,
  stopped_receiving, asked, lost, told, untold, Reaches, here, next,
}

module _ (d : Disk) (x : IsPosix d) (p : Protobuf) where
  -- The table is valid, and so is the one of a health message under way; while its mappings are
  -- intact they are of files that the table still begins with.
  pub record IsSound (s : System d) : Type 0 where
    pub table : IsValid s.node.storage
    pub snapped : (t : StorageStateOuter) → s.pending ≡ some t → IsValid t
    pub held :
        (t : StorageStateOuter)
        → s.pending ≡ some t
        → s.intact ≡ true
        → IsHeld (catalogue t) (catalogue s.node.storage)

  started-IsSound : (disk : d.State) → IsSound (started d disk)
  unfolding started
  started-IsSound disk = record {
    table = storage_state_init-IsValid.0;
    snapped = λ t e. absurd cc;
    held = λ t e. absurd cc;
  }

  and-true : (b e : Bool) → b && not e ≡ true → (b ≡ true) × (e ≡ false)
  and-true false e h = absurd cc
  and-true true true h = absurd cc
  and-true true false h = (refl, refl)

  called-IsHeld :
      (s : System d) (after t : StorageStateOuter) (moved : Bool) (x_filename : Option Bytes)
      → IsSound s
      → IsValid after
      → Changed x_filename s.node.storage after
      → s.pending ≡ some t
      → s.intact && not (harms_pending moved s.pending s.node.storage after x_filename) ≡ true
      → IsHeld (catalogue t) (catalogue after)
  unfolding harms_pending
  called-IsHeld s after t moved x_filename i w c e safe =
      let (intact, harmless) = and-true s.intact _ safe in
      harms-IsHeld moved t s.node.storage after (i.snapped t e) i.table w (i.held t e intact)
        x_filename c (rw e at harmless)

  called-IsSound :
      (s : System d) (c : Connection d) (k : ℕ) (moved : Bool) (x_filename : Option Bytes)
      → IsSound s
      → Changed x_filename s.node.storage c.node.storage
      → IsSound (record s {
        node = c.node;
        requests = set s.requests k c.con_cls;
        intact =
            s.intact
            && not (harms_pending moved s.pending s.node.storage c.node.storage x_filename);
      })
  called-IsSound s c k moved x_filename i h = record {
    table = h.valid;
    snapped = i.snapped;
    held = λ t e safe. called-IsHeld s c.node.storage t moved x_filename i h.valid h e safe;
  }

  completed-node :
      (node : Node d) (con_cls : Option ConnectionInfo)
      → (request_completed d (record { con_cls = con_cls; node = node })).node ≡ node
  unfolding request_completed
  completed-node node none = refl
  completed-node node (some con_info) = refl

  Step-IsSound : {s t : System d} → Step d p s t → IsSound s → IsSound t
  Step-IsSound (accepted s _) i = record { table = i.table; snapped = i.snapped; held = i.held }
  Step-IsSound (called s k con_cls res req r c moved _ _ e) i =
      called-IsSound s c k moved req.x_filename i (
        answer_to_connection-Changed d x res req (record { con_cls = con_cls; node = s.node }) c r
          i.table e)
  Step-IsSound (completed s k con_cls _) i = record {
    table = subst (λ (n : Node d). IsValid n.storage) (sym (completed-node s.node con_cls)) i.table;
    snapped = i.snapped;
    held = λ t e safe.
        subst (λ (n : Node d). IsHeld (catalogue t) (catalogue n.storage))
          (sym (completed-node s.node con_cls)) (i.held t e safe);
  }
  Step-IsSound (not_started s _ _) i = record {
    table = i.table;
    snapped = i.snapped;
    held = i.held;
  }
  Step-IsSound (stopped_serving s _ _) i = record {
    table = i.table;
    snapped = i.snapped;
    held = i.held;
  }
  Step-IsSound (entered_recv s _ _ _ _) i = record {
    table = i.table;
    snapped = i.snapped;
    held = i.held;
  }
  Step-IsSound (stopped_receiving s _ _ _ _) i = record {
    table = i.table;
    snapped = i.snapped;
    held = i.held;
  }
  Step-IsSound (asked s ms t _ _ _ e) i =
      let same : s.node.storage ≡ t = cc (snapshot-catalogue s.node.storage i.table, e) in
      record {
        table = subst IsValid same i.table;
        snapped = λ t' e'. let here' : s.node.storage ≡ t' = cc e' in subst IsValid here' i.table;
        held = λ t' e' safe.
            let here' : s.node.storage ≡ t' = cc e' in
            let there : t' ≡ t = cc (here', same) in
            subst (λ u. IsHeld (catalogue t') (catalogue u)) there (IsHeld-refl (catalogue t'));
      }
  Step-IsSound (lost s _ _ _) i = record { table = i.table; snapped = i.snapped; held = i.held }
  Step-IsSound (told s t _ _ _ _ _ _ _ _) i = record {
    table = i.table;
    snapped = λ t' e. absurd cc;
    held = λ t' e. absurd cc;
  }
  Step-IsSound (untold s t _ _ _ _ _ _ _ _) i = record {
    table = i.table;
    snapped = λ t' e. absurd cc;
    held = λ t' e. absurd cc;
  }

  Reaches-IsSound : {s t : System d} → Reaches d p s t → IsSound s → IsSound t
  Reaches-IsSound here i = i
  Reaches-IsSound (next before step) i = Step-IsSound step (Reaches-IsSound before i)

  -- From the start of the node on, with whatever is on its disk, the table is valid and unlocked
  -- after every step of its threads, in whatever order they come.
  pub Reaches-IsValid :
      (disk : d.State) (s : System d) → Reaches d p (started d disk) s → IsValid s.node.storage
  Reaches-IsValid disk s r = (Reaches-IsSound r (started-IsSound disk)).table

  drop-all : (n : ℕ) (ms : List FileMappings) → length ms ≤ n → drop n ms ≡ []
  drop-all zero [] h = refl
  drop-all (suc n) [] h = refl
  drop-all zero (m ∷ ms) h = absurd (omega arith)
  drop-all (suc n) (m ∷ ms) h = drop-all n ms (omega arith)

  -- In every run of the node, let a health message be packed with every `malloc` succeeding and no
  -- call between that and the frees. Either a call since the table was read has freed or moved what a
  -- mapping points to, and packing is a fault. Or the table still begins with the mapped files, each
  -- with the ids that it had and maybe more behind them, and the message is the table as it was under
  -- the lock; the loop that frees the mappings then frees all of them if no file was added, and
  -- faults if one was.
  pub Reaches-pack :
      HasSizes p
      → (disk : d.State) (s : System d) (t : StorageStateOuter) → Reaches d p (started d disk) s
      → s.pending ≡ some t
      → let n = s.node.storage.num_file_count in
        let r = return_current_state_encoded_in_protobufs p true s.intact t (λ i. n) in
        ((s.intact ≡ false) × (r ≡ none))
        ⊎ ((s.intact ≡ true)
            × IsHeld (catalogue t) (catalogue s.node.storage)
            × (r ≡ (
                if n == t.num_file_count then some (p.pack (health (catalogue t)), []) else none)))
  Reaches-pack sizes disk s t r e =
      let i = Reaches-IsSound r (started-IsSound disk) in
      let n = s.node.storage.num_file_count in
      let packed = encode-pack p sizes t (i.snapped t e) s.intact n in
      elim (Bool-cases s.intact) [
        | inr harmed ↦ inl (harmed, packed ∙ rw harmed refl)
        | inl intact ↦
            let h = i.held t e intact in
            let len = length-IsHeld (catalogue t) (catalogue s.node.storage) h in
            let short : length (catalogue t) ≤ n =
              omega (arith, len, length-catalogue s.node.storage i.table) in
            inr (
              intact,
              h,
              packed
                  ∙ rw (intact, drop-all n (catalogue t) short)
                      (ground (arith, short, length-catalogue t (i.snapped t e))),
            )
      ]

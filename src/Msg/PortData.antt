-- ===== src/Msg/PortData.antt =====
-- msg.rs: the items of a `PortData` message.
use remoc.Base.{
  ℕ, zero, suc, ◌≤◌, ◌<◌, ◌≡◌, ◌∙◌, ◌==◌, if◌then◌else◌, Bool, true, false, Bool-cases, inl, inr,
  List, [], ◌∷◌, ◌++◌, append_assoc, All, length, length-append, arith,
}
use remoc.Io.{unexpected_eof, ok, err, ◌>>=◌, pure, >>=_ok, IsU32}
use remoc.Varint.Bounds.{length-write_v32}
use remoc.Varint.Prefix.{read_v32_empty}
use remoc.Varint.RoundTrip.{read_v32-write_v32}
use remoc.Msg.Types.{External, PortDataItem}
use remoc.Msg.Flags
use remoc.Msg.Flags.{has}
use remoc.Msg.Write
use remoc.Msg.Write.{
  PreConnect, no_items, all_items, some_items, need_ids, pre_connect_count, pre_connect_mode,
  need_port_flags, is_all, flag_if, port_data_flags, write_item, write_items,
}
use remoc.Msg.Read
use remoc.Msg.Read.{read_item_id, read_item_pre_connect, read_item, read_items}
use remoc.Msg.FlagBits.{has-flag_if}

abbrev pub IsValidItem : PortDataItem → Type 0
IsValidItem p = IsU32 p.port × IsU32 p.id

abbrev pub Suits : PreConnect → PortDataItem → Type 0
Suits no_items p = p.pre_connect ≡ false
Suits all_items p = p.pre_connect ≡ true
Suits some_items p = Unit {0}

abbrev pub IdFits : Bool → PortDataItem → Type 0
IdFits true p = Unit {0}
IdFits false p = p.id ≡ p.port

-- The items that a message can carry without ids, and without a flag byte for each item.
abbrev pub Fits : Bool → PreConnect → List PortDataItem → Type 0
Fits ids mode = All (λ p. IdFits ids p × Suits mode p)

count-le : (ports : List PortDataItem) → pre_connect_count ports ≤ length ports
unfolding pre_connect_count
count-le [] = omega arith
count-le (p ∷ ports) = ground (arith, count-le ports)

zero-count : (ports : List PortDataItem) → pre_connect_count ports ≡ 0 → All (Suits no_items) ports
unfolding pre_connect_count
zero-count [] h = tt
zero-count (p ∷ ports) h = (ground arith, zero-count ports (ground arith))

full-count :
    (ports : List PortDataItem)
    → pre_connect_count ports ≡ length ports
    → All (Suits all_items) ports
unfolding pre_connect_count
full-count [] h = tt
full-count (p ∷ ports) h =
    (ground (arith, count-le ports), full-count ports (ground (arith, count-le ports)))

All-true : (ports : List PortDataItem) → All (Suits some_items) ports
All-true [] = tt
All-true (p ∷ ports) = (tt, All-true ports)

pub mode-Suits : (ports : List PortDataItem) → All (Suits (pre_connect_mode ports)) ports
unfolding pre_connect_mode
mode-Suits ports = elim (Bool-cases (pre_connect_count ports == 0)) [
  | inl e ↦ rw e (zero-count ports (ground arith))
  | inr e ↦ rw e (elim (Bool-cases (pre_connect_count ports == length ports)) [
    | inl f ↦ rw f (full-count ports (ground arith))
    | inr f ↦ rw f (All-true ports)
  ])
]

same-IdFits : (ports : List PortDataItem) → need_ids ports ≡ false → All (IdFits false) ports
unfolding need_ids
same-IdFits [] h = tt
same-IdFits (p ∷ ports) h = (ground arith, same-IdFits ports (ground arith))

any-IdFits : (ports : List PortDataItem) → All (IdFits true) ports
any-IdFits [] = tt
any-IdFits (p ∷ ports) = (tt, any-IdFits ports)

pub ids-IdFits : (ports : List PortDataItem) → All (IdFits (need_ids ports)) ports
ids-IdFits ports = elim (Bool-cases (need_ids ports)) [
  | inl e ↦ rw e (any-IdFits ports)
  | inr e ↦ rw e (same-IdFits ports e)
]

module _ {V : Type 0} (ext : External V) (varint : Bool) where
  pub v32_ok :
      (n : ℕ) (rest : List ℕ)
      → IsU32 n
      → Read.v32 ext varint (Write.v32 ext varint n ++ rest) ≡ ok (n, rest)
  unfolding Read.v32 Write.v32
  v32_ok n rest h = read_v32-write_v32 ext.order n varint rest h

  length-v32 : (n : ℕ) → 1 ≤ length (Write.v32 ext varint n)
  unfolding Write.v32
  length-v32 n = (length-write_v32 ext.order n varint).0

  -- What `write_item` writes behind the port number.
  abbrev item_tail : Bool → Bool → PortDataItem → List ℕ
  item_tail ids flags p =
      (if ids then Write.v32 ext varint p.id else [])
      ++ (if flags
          then flag_if p.pre_connect Flags.msg_port_data_flag_port_flag_pre_connect 0 ∷ []
          else [])

  -- The flag byte tells the reader how the items were written.
  abbrev Tells : ℕ → Bool → PreConnect → Type 0
  Tells flags ids mode =
      (has flags Flags.msg_port_data_flag_ids ≡ ids)
      × (has flags Flags.msg_port_data_flag_ports_flags ≡ need_port_flags mode)
      × (has flags Flags.msg_port_data_flag_pre_connect_all ≡ is_all mode)

  read_id_ok :
      (ids flags : Bool) (p : PortDataItem) (rest : List ℕ)
      → IsValidItem p
      → IdFits ids p
      → read_item_id ext varint ids p.port (item_tail ids flags p ++ rest)
        ≡ ok (p.id, item_tail false flags p ++ rest)
  unfolding ◌>>=◌ pure
  read_id_ok false flags p rest v h = rw h
  read_id_ok true flags p rest v h = rw append_assoc (v32_ok p.id _ v.1)

  read_pre_connect_ok :
      (mode : PreConnect) (p : PortDataItem) (rest : List ℕ)
      → Suits mode p
      → read_item_pre_connect ext varint
          (need_port_flags mode)
          (is_all mode)
          (item_tail false (need_port_flags mode) p ++ rest)
        ≡ ok (p.pre_connect, rest)
  unfolding ◌>>=◌ pure
  read_pre_connect_ok no_items p rest h = rw h
  read_pre_connect_ok all_items p rest h = rw h
  read_pre_connect_ok some_items p rest h = rw (has-flag_if p.pre_connect)

  read_item_ok :
      (flags : ℕ) (ids : Bool) (mode : PreConnect) (p : PortDataItem) (rest : List ℕ)
      → Tells flags ids mode
      → IsValidItem p
      → IdFits ids p
      → Suits mode p
      → read_item ext varint flags p.port (item_tail ids (need_port_flags mode) p ++ rest)
        ≡ ok (p, rest)
  unfolding read_item ◌>>=◌ pure
  read_item_ok flags ids mode p rest t v h s =
      rw (t.0, t.1, t.2)
        (>>=_ok (read_item_id ext varint ids p.port) _ (read_id_ok ids _ p rest v h)
          ∙ >>=_ok (read_item_pre_connect ext varint (need_port_flags mode) (is_all mode)) _
              (read_pre_connect_ok mode p rest s))

  read_items_step :
      (fuel flags port : ℕ) (bs r1 rest : List ℕ) (p : PortDataItem) (ps : List PortDataItem)
      → Read.v32 ext varint bs ≡ ok (port, r1)
      → read_item ext varint flags port r1 ≡ ok (p, rest)
      → read_items ext varint fuel flags rest ≡ ok (ps, [])
      → read_items ext varint (suc fuel) flags bs ≡ ok (p ∷ ps, [])
  unfolding read_items ◌>>=◌ pure
  read_items_step fuel flags port bs r1 rest p ps e f g =
      rw (e, read_items)
        (>>=_ok (read_item ext varint flags port) _ f
          ∙ >>=_ok (read_items ext varint fuel flags) _ g)

  read_items_end :
      (fuel flags : ℕ)
      → Read.v32 ext varint [] ≡ err unexpected_eof
      → read_items ext varint (suc fuel) flags [] ≡ ok ([], [])
  unfolding read_items ◌>>=◌ pure
  read_items_end fuel flags e = rw (e, read_items)

  v32_empty : Read.v32 ext varint [] ≡ err unexpected_eof
  unfolding Read.v32
  v32_empty = read_v32_empty ext.order varint

  -- The items are read back with any fuel above the number of bytes.
  pub read_items-write_items :
      (fuel flags : ℕ) (ids : Bool) (mode : PreConnect) (ports : List PortDataItem)
      → Tells flags ids mode
      → All IsValidItem ports
      → All (IdFits ids) ports
      → All (Suits mode) ports
      → length (write_items ext varint ids (need_port_flags mode) ports) < fuel
      → read_items ext varint fuel flags (write_items ext varint ids (need_port_flags mode) ports)
        ≡ ok (ports, [])
  unfolding write_items
  read_items-write_items zero flags ids mode ports t v h s hf = absurd (omega arith)
  read_items-write_items (suc fuel) flags ids mode [] t v h s hf =
      read_items_end fuel flags v32_empty
  read_items-write_items (suc fuel) flags ids mode (p ∷ ports) t v h s hf =
      let tail = item_tail ids (need_port_flags mode) p in
      let rest = write_items ext varint ids (need_port_flags mode) ports in
      read_items_step fuel flags p.port _ (tail ++ rest) rest p ports
        (rw append_assoc (v32_ok p.port (tail ++ rest) v.0.0))
        (read_item_ok flags ids mode p rest t v.0 h.0 s.0)
        (read_items-write_items fuel flags ids mode ports t v.1 h.1 s.1 (
          omega (
            arith,
            length-append (Write.v32 ext varint p.port ++ tail) rest,
            length-append (Write.v32 ext varint p.port) tail,
            length-v32 p.port,
          )))

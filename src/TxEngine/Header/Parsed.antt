-- ===== src/TxEngine/Header/Parsed.antt =====
-- The header of a sent segment, as the rx engine of a peer reads it.
use native.Mathlib.Nat.{mod-eq_of_lt}
use tcp_offload_engine_shell.Prelude.{
  ℕ, suc, ap, ◌∙◌, ◌+◌, ◌-◌, ◌*◌, ◌%◌, ◌^◌, ◌==◌, ◌≡◌, ◌<◌, ◌≤◌, refl, Bool, true, false,
  Bool-cases, inl, inr, some, List, [], ◌∷◌, ◌++◌, if◌then◌else◌, All, arith,
}
use tcp_offload_engine_shell.Conn.Tables.{swap_byte16}
use tcp_offload_engine_shell.Conn.Messages.{FourTuple}
use tcp_offload_engine_shell.Words.{swap_byte32}
use tcp_offload_engine_shell.Words.Bits.{build, get, field, found}
use tcp_offload_engine_shell.RxEngine.Segment.{flag, TcpHeaderMeta}
use tcp_offload_engine_shell.RxEngine.Parse.{header_of, payload_length}
use tcp_offload_engine_shell.TxEngine.State.{TxEngFsmMetaData}
use tcp_offload_engine_shell.TxEngine.Header.{
  header_fields, option_fields, mss_fields, scale_fields, full_header,
}

swap16_twice : (x : ℕ) → x < 2 ^ 16 → swap_byte16 (swap_byte16 x % 2 ^ 16) ≡ x
swap16_twice x h = omega arith

swap32_twice : (x : ℕ) → x < 2 ^ 32 → swap_byte32 (swap_byte32 x % 2 ^ 32) ≡ x
swap32_twice x h = omega arith

-- The value that a list of assignments leaves in a range of a word of zeros.
abbrev Leaves : List (ℕ × ℕ × ℕ) → ℕ → ℕ → ℕ → Type 0
Leaves fs hi lo v = found hi lo fs (some 0) ≡ some (v % 2 ^ (suc hi - lo))

-- Every range that the receiver reads but for the options, where the data offset is `off`.
abbrev LeavesAll : TxEngFsmMetaData → FourTuple → ℕ → List (ℕ × ℕ × ℕ) → Type 0
LeavesAll m t off fs =
    Leaves fs 31 0 t.src_ip_addr
    × Leaves fs 63 32 t.dst_ip_addr
    × Leaves fs 95 80 (swap_byte16 ((m.length + 0x14) % 2 ^ 16))
    × Leaves fs 111 96 t.src_tcp_port
    × Leaves fs 127 112 t.dst_tcp_port
    × Leaves fs 159 128 (swap_byte32 m.seq_number)
    × Leaves fs 191 160 (swap_byte32 m.ack_number)
    × Leaves fs 199 196 off
    × Leaves fs 200 200 (flag m.fin)
    × Leaves fs 201 201 (flag m.syn)
    × Leaves fs 202 202 (flag m.rst)
    × Leaves fs 204 204 (flag m.ack)
    × Leaves fs 223 208 (swap_byte16 m.win_size)
    × All (λ f. f.1 ≤ suc f.0) fs

-- The numbers have the widths of the code.
pub record Fits (m : TxEngFsmMetaData) (t : FourTuple) : Type 0 where
  pub src_ip_addr : t.src_ip_addr < 2 ^ 32
  pub dst_ip_addr : t.dst_ip_addr < 2 ^ 32
  pub src_tcp_port : t.src_tcp_port < 2 ^ 16
  pub dst_tcp_port : t.dst_tcp_port < 2 ^ 16
  pub seq_number : m.seq_number < 2 ^ 32
  pub ack_number : m.ack_number < 2 ^ 32
  pub win_size : m.win_size < 2 ^ 16
  pub length : m.length < 2 ^ 16

-- What the receiver is to know: the payload is what the length leaves beside the options.
abbrev pub expected : TxEngFsmMetaData → FourTuple → ℕ → TcpHeaderMeta
expected m t off = record {
  src_port = t.src_tcp_port;
  dest_port = t.dst_tcp_port;
  seq_number = m.seq_number;
  ack_number = m.ack_number;
  win_size = m.win_size;
  data_offset = off;
  ack = m.ack;
  rst = m.rst;
  syn = m.syn;
  fin = m.fin;
  win_scale = 0;
  payload_length = (m.length + 2 ^ 16 - 4 * (off - 5)) % 2 ^ 16;
}

flag_read : (b : Bool) → (flag b % 2 ^ 1 == 1) ≡ b
flag_read true = refl
flag_read false = refl

module _ (m : TxEngFsmMetaData) (t : FourTuple) (off : ℕ) (fs : List (ℕ × ℕ × ℕ)) (f : Fits m t)
    (all : LeavesAll m t off fs) where
  read_field :
      (hi lo v : ℕ)
      → lo ≤ suc hi
      → Leaves fs hi lo v
      → get hi lo (build fs 0) ≡ v % 2 ^ (suc hi - lo)
  read_field hi lo v o e = field hi lo fs (v % 2 ^ (suc hi - lo)) o (all.13) e

  read_all :
      5 ≤ off
      → off ≤ 7
      → let h = header_of (build fs 0) in
        (h.src_ip ≡ t.src_ip_addr) × (h.dest_ip ≡ t.dst_ip_addr) × (h.header ≡ expected m t off)
  unfolding header_of
  read_all lo hi =
      let x : ℕ = build fs 0 in
      let src : get 31 0 x ≡ t.src_ip_addr =
        read_field 31 0 t.src_ip_addr (omega arith) all.0 ∙ mod-eq_of_lt f.src_ip_addr in
      let dst : get 63 32 x ≡ t.dst_ip_addr =
        read_field 63 32 t.dst_ip_addr (omega arith) all.1 ∙ mod-eq_of_lt f.dst_ip_addr in
      let len : get 95 80 x ≡ swap_byte16 ((m.length + 0x14) % 2 ^ 16) % 2 ^ 16 =
        read_field 95 80 (swap_byte16 ((m.length + 0x14) % 2 ^ 16)) (omega arith) all.2 in
      let src_port : get 111 96 x ≡ t.src_tcp_port =
        read_field 111 96 t.src_tcp_port (omega arith) all.3 ∙ mod-eq_of_lt f.src_tcp_port in
      let dst_port : get 127 112 x ≡ t.dst_tcp_port =
        read_field 127 112 t.dst_tcp_port (omega arith) all.4 ∙ mod-eq_of_lt f.dst_tcp_port in
      let seq : swap_byte32 (get 159 128 x) ≡ m.seq_number =
        ap (λ (n : ℕ). swap_byte32 n)
          (read_field 159 128 (swap_byte32 m.seq_number) (omega arith) all.5)
        ∙ swap32_twice m.seq_number f.seq_number in
      let ack_number : swap_byte32 (get 191 160 x) ≡ m.ack_number =
        ap (λ (n : ℕ). swap_byte32 n)
          (read_field 191 160 (swap_byte32 m.ack_number) (omega arith) all.6)
        ∙ swap32_twice m.ack_number f.ack_number in
      let offset : get 199 196 x ≡ off =
        read_field 199 196 off (omega arith) all.7 ∙ mod-eq_of_lt (omega (arith, hi)) in
      let win : swap_byte16 (get 223 208 x) ≡ m.win_size =
        ap (λ (n : ℕ). swap_byte16 n)
          (read_field 223 208 (swap_byte16 m.win_size) (omega arith) all.12)
        ∙ swap16_twice m.win_size f.win_size in
      let bit = λ (i : ℕ) (b : Bool) (e : get i i x ≡ flag b % 2 ^ 1).
        ap (λ (n : ℕ). n == 1) e ∙ flag_read b in
      let fin : (get 200 200 x == 1) ≡ m.fin =
        bit 200 m.fin (read_field 200 200 (flag m.fin) (omega arith) all.8) in
      let syn : (get 201 201 x == 1) ≡ m.syn =
        bit 201 m.syn (read_field 201 201 (flag m.syn) (omega arith) all.9) in
      let rst : (get 202 202 x == 1) ≡ m.rst =
        bit 202 m.rst (read_field 202 202 (flag m.rst) (omega arith) all.10) in
      let ack : (get 204 204 x == 1) ≡ m.ack =
        bit 204 m.ack (read_field 204 204 (flag m.ack) (omega arith) all.11) in
      let size : payload_length x ≡ (m.length + 2 ^ 16 - 4 * (off - 5)) % 2 ^ 16 = omega (
        arith,
        len,
        offset,
        lo,
        hi,
        swap16_twice ((m.length + 0x14) % 2 ^ 16) (omega arith),
        f.length,
      ) in
      (
        src,
        dst,
        λ i. record {
          src_port = src_port i;
          dest_port = dst_port i;
          seq_number = seq i;
          ack_number = ack_number i;
          win_size = win i;
          data_offset = offset i;
          ack = ack i;
          rst = rst i;
          syn = syn i;
          fin = fin i;
          win_scale = 0;
          payload_length = size i;
        },
      )

-- The length of the header in words of 4 bytes.
abbrev pub header_length : TxEngFsmMetaData → ℕ
header_length m = if m.syn then if m.win_scale == 0 then 6 else 7 else 5

with_options :
    (m : TxEngFsmMetaData) (t : FourTuple) (off : ℕ) (o : List (ℕ × ℕ × ℕ))
    → Fits m t
    → option_fields m ≡ o
    → header_length m ≡ off
    → LeavesAll m t off (header_fields m t ++ o)
    → 5 ≤ off
    → off ≤ 7
    → let h = header_of (full_header m t).0.word in
      (h.src_ip ≡ t.src_ip_addr)
      × (h.dest_ip ≡ t.dst_ip_addr)
      × (h.header ≡ expected m t (header_length m))
unfolding full_header
with_options m t off o f e e' all lo hi =
    rw (e, e') (read_all m t off (header_fields m t ++ o) f all lo hi)

-- For a segment whose numbers have the widths of the code, the receiver's parser reads from the
-- word that is built the addresses, the ports, the sequence and acknowledgment numbers, the window
-- and the flags that were put in, the data offset for the options that were put in, and as the
-- length of the payload the length less that of these options.
pub header_parsed :
    (m : TxEngFsmMetaData) (t : FourTuple)
    → Fits m t
    → let h = header_of (full_header m t).0.word in
      (h.src_ip ≡ t.src_ip_addr)
      × (h.dest_ip ≡ t.dst_ip_addr)
      × (h.header ≡ expected m t (header_length m))
header_parsed m t f = elim (Bool-cases m.syn) [
  | inr plain ↦
      with_options m t 5 ((199, 196, 0x5) ∷ []) f (rw plain refl) (rw plain refl)
        (refl, refl, refl, refl, refl, refl, refl, refl, refl, refl, refl, refl, refl, omega arith)
        (omega arith) (omega arith)
  | inl syn ↦ elim (Bool-cases (m.win_scale == 0)) [
    | inl unscaled ↦
        with_options m t 6 (mss_fields ++ ((199, 196, 0x6) ∷ [])) f (rw (syn, unscaled) refl)
          (rw (syn, unscaled) refl)
          (
            refl,
            refl,
            refl,
            refl,
            refl,
            refl,
            refl,
            refl,
            refl,
            refl,
            refl,
            refl,
            refl,
            omega arith,
          )
          (omega arith) (omega arith)
    | inr scaled ↦
        with_options m t 7 (mss_fields ++ ((199, 196, 0x7) ∷ scale_fields m)) f
          (rw (syn, scaled) refl) (rw (syn, scaled) refl)
          (
            refl,
            refl,
            refl,
            refl,
            refl,
            refl,
            refl,
            refl,
            refl,
            refl,
            refl,
            refl,
            refl,
            omega arith,
          )
          (omega arith) (omega arith)
  ]
]

-- ===== src/PortTable/Ports.antt =====
-- Who may hold a port: a listening port has one role, and a free port is given out once.
use tcp_offload_engine_shell.Prelude.{
  All, ℕ, ◌+◌, ◌^◌, ◌≤◌, ◌<◌, ◌≡◌, ◌≢◌, ◌⊎◌, ◌↔◌, inl, inr, Bool, true, false, not, List, [], ◌∷◌,
  ◌++◌, arith, if◌then◌else◌, ◌&&◌, ◌==◌, ◌∙◌,
}
use tcp_offload_engine_shell.Conn.Tables.{ListenPortReq, ListenPortRsp}
use tcp_offload_engine_shell.PortTable.{
  State, bit15, low15, listening_port_table, free_port_table, check_in_multiplexer,
  check_out_multiplexer, port_table,
}

-- If a listen request waits, a call answers it, and the answer says what was done: the port is
-- opened for the role exactly when it lies in the lower half and was not open, and is closed to the
-- role otherwise; the reason "wrong port number" is given exactly for a port of the upper half.
pub listen_answer :
    (full : Bool) (s : State) (q : ListenPortReq) (rest : List ListenPortReq)
    → s.listen_port_req ≡ q ∷ rest
    → (a : ListenPortRsp) × ((port_table full s).listen_port_rsp ≡ s.listen_port_rsp ++ (a ∷ []))
      × ((a.open_successfully ≡ true)
          ↔ ((bit15 q.port ≡ false) × ((s.listening_port_table (low15 q.port)).is_open ≡ false)))
      × (a.open_successfully ≡ true
          → (port_table full s).listening_port_table (low15 q.port)
            ≡ record { is_open = true; role_id = q.dest })
      × (a.open_successfully ≡ false
          → (port_table full s).listening_port_table ≡ s.listening_port_table)
      × (a.wrong_port_number ≡ bit15 q.port)
      × (a.dest ≡ q.dest)
unfolding port_table listening_port_table free_port_table check_in_multiplexer check_out_multiplexer
listen_answer full s q rest h =
    let ok = not (s.listening_port_table (low15 q.port)).is_open && not (bit15 q.port) in
    (
      record {
        port_number = q.port;
        open_successfully = ok;
        wrong_port_number = bit15 q.port;
        already_open = not ok;
        dest = q.dest;
      },
      ground arith,
      ground arith,
      ground arith,
      ground arith,
      ground arith,
      ground arith,
    )

-- A port that a role listens on stays open for that role, whatever a call is asked.
pub listening_is_kept :
    (full : Bool) (s : State) (p : ℕ)
    → (s.listening_port_table p).is_open ≡ true
    → (port_table full s).listening_port_table p ≡ s.listening_port_table p
unfolding port_table listening_port_table free_port_table check_in_multiplexer check_out_multiplexer
listening_is_kept full s p h = ground arith

-- What other modules hand in before a call, and whether the stream to the tx app is full.
pub record Arrivals : Type 0 where
  pub listen : List ListenPortReq
  pub check : List ℕ
  pub tx_app : List ℕ
  pub full : Bool

abbrev pub deliver : State → Arrivals → State
deliver s a = record s {
  listen_port_req = s.listen_port_req ++ a.listen;
  check_req = s.check_req ++ a.check;
  tx_app_req = s.tx_app_req ++ a.tx_app;
}

-- Calls of `port_table` with arrivals before each, no port being released.
unfoldable pub run : State → List Arrivals → State
run s [] = s
run s (a ∷ l) = run (port_table a.full (deliver s a)) l

-- No number stands twice in the list.
abbrev pub Distinct : List ℕ → Type 0
Distinct [] = Unit
Distinct (p ∷ ps) = All (λ q. p ≢ q) ps × Distinct ps

-- The ports given out so far are distinct, in the upper half, and marked as used.
pub record Given (s : State) : Type 0 where
  pub distinct : Distinct s.tx_app_rsp
  pub used :
      All
        (λ p. (2 ^ 15 ≤ p) × (p < 2 ^ 16) × ((s.free_port_table (low15 p)).is_open ≡ true))
        s.tx_app_rsp
  pub cursor : s.pt_cursor < 2 ^ 15
  pub unreleased : s.release_port_req ≡ []

All-append {ℓ κ} :
    {A : Type ℓ} (P : A → Type κ) (xs ys : List A) → All P xs → All P ys → All P (xs ++ ys)
All-append P [] ys hx hy = hy
All-append P (x ∷ xs) ys hx hy = (hx.0, All-append P xs ys hx.1 hy)

All-map {ℓ κ μ} :
    {A : Type ℓ} {P : A → Type κ} {Q : A → Type μ}
    → ((x : A) → P x → Q x)
    → (xs : List A) → All P xs
    → All Q xs
All-map f [] h = tt
All-map f (x ∷ xs) h = (f x h.0, All-map f xs h.1)

Distinct-append :
    (ps : List ℕ) (q : ℕ) → Distinct ps → All (λ p. p ≢ q) ps → Distinct (ps ++ (q ∷ []))
Distinct-append [] q d n = (tt, tt)
Distinct-append (p ∷ ps) q d n =
    (All-append (λ r. p ≢ r) ps (q ∷ []) d.0 (n.0, tt), Distinct-append ps q d.1 n.1)

-- What one call does to the free ports, when none is released: nothing, or it gives out the port
-- under the cursor, which was free and is so no more.
abbrev GivesNone : State → State → Type 0
GivesNone s s' = (s'.tx_app_rsp ≡ s.tx_app_rsp) × (s'.free_port_table ≡ s.free_port_table)

abbrev GivesOne : State → State → Type 0
GivesOne s s' =
    (s'.tx_app_rsp ≡ s.tx_app_rsp ++ ((2 ^ 15 + s.pt_cursor) ∷ []))
    × ((s.free_port_table s.pt_cursor).is_open ≡ false)
    × ((p : ℕ)
        → (s'.free_port_table p).is_open
          ≡ (if s.pt_cursor == p then true else (s.free_port_table p).is_open))

free_port_table_cases :
    (full : Bool) (s : State)
    → s.release_port_req ≡ []
    → GivesNone s (free_port_table full s) ⊎ GivesOne s (free_port_table full s)
unfolding free_port_table
free_port_table_cases full s h = ground arith

-- The other three processes leave the free ports alone.
abbrev SamePorts : State → State → Type 0
SamePorts s s' =
    (s'.tx_app_rsp ≡ s.tx_app_rsp)
    × (s'.free_port_table ≡ s.free_port_table)
    × (s'.pt_cursor ≡ s.pt_cursor)
    × (s'.release_port_req ≡ s.release_port_req)

listening_port_table-SamePorts : (s : State) → SamePorts s (listening_port_table s)
unfolding listening_port_table
listening_port_table-SamePorts s = ground arith

check_in_multiplexer-SamePorts : (s : State) → SamePorts s (check_in_multiplexer s)
unfolding check_in_multiplexer
check_in_multiplexer-SamePorts s = ground arith

check_out_multiplexer-SamePorts : (s : State) → SamePorts s (check_out_multiplexer s)
unfolding check_out_multiplexer
check_out_multiplexer-SamePorts s = ground arith

free_port_table-cursor :
    (full : Bool) (s : State)
    → s.release_port_req ≡ []
    → s.pt_cursor < 2 ^ 15
    → ((free_port_table full s).release_port_req ≡ [])
      × ((free_port_table full s).pt_cursor < 2 ^ 15)
unfolding free_port_table
free_port_table-cursor full s h k = ground arith

Given-GivesNone :
    (s s' : State)
    → Given s
    → GivesNone s s'
    → s'.release_port_req ≡ []
    → s'.pt_cursor < 2 ^ 15
    → Given s'
Given-GivesNone s s' g n r c = record {
  distinct = rw n.0 g.distinct;
  used = rw (n.0, n.1) g.used;
  cursor = c;
  unreleased = r;
}

Given-GivesOne :
    (s s' : State)
    → Given s
    → GivesOne s s'
    → s'.release_port_req ≡ []
    → s'.pt_cursor < 2 ^ 15
    → Given s'
Given-GivesOne s s' g n r c = record {
  distinct = rw n.0 (
      Distinct-append s.tx_app_rsp (2 ^ 15 + s.pt_cursor) g.distinct
        (All-map (λ p h. ground (arith, h, n.1, g.cursor)) s.tx_app_rsp g.used));
  used = rw n.0 (
      All-append _ s.tx_app_rsp _
        (All-map (λ p h. (h.0, h.1, ground (arith, n.2 (low15 p)))) s.tx_app_rsp g.used)
        (
          (
            omega arith,
            omega (arith, g.cursor),
            ground (arith, n.2 (low15 (2 ^ 15 + s.pt_cursor)), g.cursor),
          ),
          tt,
        ));
  cursor = c;
  unreleased = r;
}

Given-SamePorts : (s s' : State) → Given s → SamePorts s s' → Given s'
Given-SamePorts s s' g e = Given-GivesNone s s' g (e.0, e.1) (e.3 ∙ g.unreleased) (rw e.2 g.cursor)

free_port_table-Given : (full : Bool) (s : State) → Given s → Given (free_port_table full s)
free_port_table-Given full s g =
    let (r, c) = free_port_table-cursor full s g.unreleased g.cursor in
    elim (free_port_table_cases full s g.unreleased) [
      | inl n ↦ Given-GivesNone s (free_port_table full s) g n r c
      | inr n ↦ Given-GivesOne s (free_port_table full s) g n r c
    ]

port_table-Given : (full : Bool) (s : State) → Given s → Given (port_table full s)
unfolding port_table
port_table-Given full s g =
    let s1 = listening_port_table s in
    let s2 = free_port_table full s1 in
    let s3 = check_in_multiplexer s2 in
    Given-SamePorts s3 (check_out_multiplexer s3)
      (Given-SamePorts s2 s3
        (free_port_table-Given full s1 (Given-SamePorts s s1 g (listening_port_table-SamePorts s)))
        (check_in_multiplexer-SamePorts s2))
      (check_out_multiplexer-SamePorts s3)

-- While no port is released, no port is given out twice, and each one given out lies in the upper
-- half and is marked as used: this holds after any calls with any arrivals of other requests if it
-- holds before them.
pub free_ports_are_distinct :
    (s : State) (arrivals : List Arrivals) → Given s → Given (run s arrivals)
unfolding run
free_ports_are_distinct s [] g = g
free_ports_are_distinct s (a ∷ l) g = free_ports_are_distinct (port_table a.full (deliver s a)) l (
    port_table-Given a.full (deliver s a) (record {
      distinct = g.distinct;
      used = g.used;
      cursor = g.cursor;
      unreleased = g.unreleased;
    }))

-- If a port is to be released, a call marks it as free, if it lies in the upper half, and changes
-- no other port.
pub release_frees :
    (full : Bool) (s : State) (p : ℕ) (rest : List ℕ)
    → s.release_port_req ≡ p ∷ rest
    → (x : ℕ)
    → ((port_table full s).free_port_table x).is_open
      ≡ (if bit15 p && low15 p == x then false else (s.free_port_table x).is_open)
unfolding port_table listening_port_table free_port_table check_in_multiplexer check_out_multiplexer
release_frees full s p rest h x = ground arith

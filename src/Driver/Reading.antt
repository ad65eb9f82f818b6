-- ===== src/Driver/Reading.antt =====
-- `read` gives the bytes of the transfers in order, whatever the sizes of the requests.
use Prim.Native.Nat.{bit_and}
use native.Mathlib.Nat.{zero-add, add-zero, suc-add}
use sw_daq_tofhir.Base.{
  ℕ, zero, suc, ◌+◌, ◌-◌, ◌*◌, ◌<◌, ◌≤◌, ◌≡◌, refl, ap, ap₂, sym, ◌∙◌, Bool, true, false, ◌&&◌, ltb,
  ◌==◌, List, [], ◌++◌, length, take, drop, Option, some, arith, if_intro, append-nil, append_assoc,
  length-append, take_add, take-append, drop_add, length-take, length-drop, subst,
}
use sw_daq_tofhir.Driver.{
  wait_transfer, hangs, PsdaqDev, ReadResult, returned, prepend_all, refill, chunk_size, consume,
  read_loop, psdaq_file_read, init_card, choose_tlp_size, buf_size,
}

module _ (dma : ℕ → List ℕ) (status : ℕ → ℕ → ℕ) (polls : ℕ) (copy_fails : ℕ → Bool) where
  -- The bytes of n transfers from number k on.
  abbrev pub transferred : ℕ → ℕ → List ℕ
  transferred k zero = []
  transferred k (suc n) = dma k ++ transferred (k + 1) n

  -- The bytes in the buffer that were not read.
  abbrev pub unread : PsdaqDev → List ℕ
  unread d = take (d.dma_fill - d.dma_used) (drop d.dma_used d.dma_buf)

  -- Transfers have the size that the card was set up for, and it is not 0.
  pub record IsReady (d : PsdaqDev) : Type 0 where
    pub size : ℕ
    pub sized : (k : ℕ) → length (dma k) ≡ size
    pub set_up : d.tlp_count * d.tlp_size ≡ size
    pub some_size : 0 < size
    pub used : d.dma_used ≤ d.dma_fill
    pub filled : d.dma_fill ≤ length d.dma_buf

  -- A read that has given out the bytes that stood before those that are left.
  pub record Gives (before : List ℕ) (first count : ℕ) (r : Option ReadResult) : Type 0 where
    pub device : PsdaqDev
    pub out : List ℕ
    pub ends : r ≡ some (returned device out)
    pub all : length out ≡ count
    pub ready : IsReady device
    pub started : ℕ
    pub number : device.transfers ≡ first + started
    pub order : before ++ transferred first started ≡ out ++ unread device

  refill-IsReady : (d : PsdaqDev) → IsReady d → IsReady (refill dma status polls copy_fails d)
  unfolding refill
  refill-IsReady d h =
      if_intro IsReady (d.dma_used == d.dma_fill)
        (λ e. record {
          size = h.size;
          sized = h.sized;
          set_up = h.set_up;
          some_size = h.some_size;
          used = omega arith;
          filled = omega (
            arith,
            h.set_up,
            h.sized d.transfers,
            length-append (dma d.transfers) (drop (length (dma d.transfers)) d.dma_buf),
          );
        })
        (λ _. h)

  refill-room :
      (d : PsdaqDev)
      → IsReady d
      → (refill dma status polls copy_fails d).dma_used
        < (refill dma status polls copy_fails d).dma_fill
  unfolding refill
  refill-room d h =
      if_intro {A = PsdaqDev} (λ t. t.dma_used < t.dma_fill) (d.dma_used == d.dma_fill)
        (λ _. omega (arith, h.set_up, h.some_size)) (λ e. ground (arith, h.used))

  take_first : (n : ℕ) (xs ys : List ℕ) → length xs ≡ n → take n (xs ++ ys) ≡ xs
  take_first n xs ys e = subst (λ t. take t (xs ++ ys) ≡ xs) e (take-append xs ys)

  -- A refill starts a transfer, or none.
  record Refilled (d e : PsdaqDev) : Type 0 where
    started : ℕ
    number : e.transfers ≡ d.transfers + started
    order : unread d ++ transferred d.transfers started ≡ unread e

  refill-Refilled : (d : PsdaqDev) → IsReady d → Refilled d (refill dma status polls copy_fails d)
  unfolding refill
  refill-Refilled d h =
      if_intro (Refilled d) (d.dma_used == d.dma_fill)
        (λ e. record {
          started = 1;
          number = refl;
          order =
              (let z : d.dma_fill - d.dma_used ≡ 0 = ground arith in
                rw z (
                  append-nil (dma d.transfers)
                  ∙ sym (
                      take_first _ (dma d.transfers) _
                        (omega (arith, h.sized d.transfers, h.set_up)))));
        })
        (λ _. record { started = 0; number = omega arith; order = append-nil (unread d) })

  unread-consume :
      (d : PsdaqDev) (n : ℕ)
      → n ≤ d.dma_fill - d.dma_used
      → unread d
        ≡ take n (drop d.dma_used d.dma_buf) ++ unread (consume dma status polls copy_fails n d)
  unfolding consume
  unread-consume d n l =
      let rest : d.dma_fill - d.dma_used ≡ n + (d.dma_fill - (d.dma_used + n)) = omega (arith, l) in
      ap (λ t. take t (drop d.dma_used d.dma_buf)) rest
      ∙ take_add n _ (drop d.dma_used d.dma_buf)
      ∙ ap (λ t. take n (drop d.dma_used d.dma_buf) ++ take (d.dma_fill - (d.dma_used + n)) t)
          (sym (drop_add d.dma_used n d.dma_buf))

  consume-IsReady :
      (d : PsdaqDev) (n : ℕ)
      → n ≤ d.dma_fill - d.dma_used
      → IsReady d
      → IsReady (consume dma status polls copy_fails n d)
  unfolding consume
  consume-IsReady d n l h = record {
    size = h.size;
    sized = h.sized;
    set_up = h.set_up;
    some_size = h.some_size;
    used = omega (arith, l, h.used);
    filled = h.filled;
  }

  transferred_add : (k m n : ℕ) → transferred k (m + n) ≡ transferred k m ++ transferred (k + m) n
  transferred_add k zero n = rw (zero-add n, add-zero k) refl
  transferred_add k (suc m) n = rw suc-add (
      ap (λ t. dma k ++ t) (transferred_add (k + 1) m n)
      ∙ sym (append_assoc (dma k) (transferred (k + 1) m) (transferred (k + 1 + m) n))
      ∙ ap (λ t. (dma k ++ transferred (k + 1) m) ++ transferred t n) (omega arith))

  chunk_le :
      (left : ℕ) (d : PsdaqDev)
      → chunk_size dma status polls copy_fails left d ≤ d.dma_fill - d.dma_used
  chunk_le left d = ground arith

  chunk_le_left : (left : ℕ) (d : PsdaqDev) → chunk_size dma status polls copy_fails left d ≤ left
  chunk_le_left left d = ground arith

  chunk_pos :
      (left : ℕ) (d : PsdaqDev)
      → 0 < left
      → d.dma_used < d.dma_fill
      → 0 < chunk_size dma status polls copy_fails left d
  chunk_pos left d l m = ground arith

  length-chunk :
      (d : PsdaqDev) (n : ℕ)
      → IsReady d
      → n ≤ d.dma_fill - d.dma_used
      → length (take n (drop d.dma_used d.dma_buf)) ≡ n
  length-chunk d n h l =
      length-take n (drop d.dma_used d.dma_buf)
        (omega (arith, l, h.used, h.filled, length-drop d.dma_used d.dma_buf))

  -- A chunk before the reads that follow.
  chunk-Gives :
      (d : PsdaqDev) (count n : ℕ) (r : Option ReadResult)
      → IsReady d
      → n
        ≤ (refill dma status polls copy_fails d).dma_fill
          - (refill dma status polls copy_fails d).dma_used
      → n ≤ count
      → Gives
          (unread (consume dma status polls copy_fails n (refill dma status polls copy_fails d)))
          (consume dma status polls copy_fails n (refill dma status polls copy_fails d)).transfers
          (count - n)
          r
      → Gives (unread d) d.transfers count (
          prepend_all
            (take n (
              drop
                (refill dma status polls copy_fails d).dma_used
                (refill dma status polls copy_fails d).dma_buf))
            r)
  unfolding consume
  chunk-Gives d count n r h l m g =
      let f = refill-Refilled d h in
      let full = refill dma status polls copy_fails d in
      let bytes = take n (drop full.dma_used full.dma_buf) in
      record {
        device = g.device;
        out = bytes ++ g.out;
        ends = rw g.ends refl;
        all = omega (
          arith,
          g.all,
          m,
          length-append bytes g.out,
          length-chunk full n (refill-IsReady d h) l,
        );
        ready = g.ready;
        started = f.started + g.started;
        number = omega (arith, g.number, f.number);
        order =
            ap (λ t. unread d ++ t) (transferred_add d.transfers f.started g.started)
            ∙ sym (append_assoc (unread d) (transferred d.transfers f.started) _)
            ∙ ap₂ (λ t k. t ++ transferred k g.started) f.order (sym f.number)
            ∙ ap (λ t. t ++ transferred full.transfers g.started) (unread-consume full n l)
            ∙ append_assoc bytes (unread (consume dma status polls copy_fails n full))
                (transferred full.transfers g.started)
            ∙ ap (λ t. bytes ++ t) g.order
            ∙ sym (append_assoc bytes g.out (unread g.device));
      }

  nothing :
      (count rc : ℕ) (d : PsdaqDev)
      → IsReady d
      → count - rc ≡ 0
      → Gives (unread d) d.transfers (count - rc) (some (returned d []))
  nothing count rc d h e = record {
    device = d;
    out = [];
    ends = refl;
    all = sym e;
    ready = h;
    started = 0;
    number = omega arith;
    order = append-nil (unread d);
  }

  sub_add : (a b c : ℕ) → a - (b + c) ≡ a - b - c
  sub_add a b c = omega arith

  -- The wait for each transfer ends within its rounds.
  abbrev pub Finishes : Type 0
  Finishes = (k : ℕ) → (i : ℕ) × (i < polls) × ((bit_and (status k i) 0x100 == 0) ≡ false)

  wait_transfer_lem :
      (fuel start i : ℕ) (register : ℕ → ℕ)
      → i < fuel
      → (bit_and (register (start + i)) 0x100 == 0) ≡ false
      → wait_transfer fuel register start ≡ true
  unfolding wait_transfer
  wait_transfer_lem zero start i register l h = absurd (omega (arith, l))
  wait_transfer_lem (suc fuel) start zero register l h =
      let here : start + 0 ≡ start = omega arith in
      rw (ap (λ t. bit_and (register t) 0x100 == 0) (sym here) ∙ h) refl
  wait_transfer_lem (suc fuel) start (suc i) register l h =
      let rest =
        wait_transfer_lem fuel (start + 1) i register (omega (arith, l))
          (ap (λ t. bit_and (register t) 0x100 == 0) (omega arith) ∙ h) in
      if_intro (λ t. t ≡ true) (bit_and (register start) 0x100 == 0) (λ _. rest) (λ _. refl)

  hangs_not : (d : PsdaqDev) → Finishes → hangs dma status polls copy_fails d ≡ false
  hangs_not d f =
      let (i, l, h) = f d.transfers in
      let ends : wait_transfer polls (status d.transfers) 0 ≡ true =
        wait_transfer_lem polls 0 i (status d.transfers) l
          (ap (λ t. bit_and (status d.transfers t) 0x100 == 0) (omega arith) ∙ h) in
      rw ends (both (d.dma_used == d.dma_fill))
    where
      both : (b : Bool) → (b && false) ≡ false
      both true = refl
      both false = refl

  read-Gives :
      (fuel count rc : ℕ) (d : PsdaqDev)
      → ((i : ℕ) → copy_fails i ≡ false)
      → Finishes
      → IsReady d
      → rc ≤ count
      → count - rc ≤ fuel
      → Gives
          (unread d)
          d.transfers
          (count - rc)
          (read_loop dma status polls copy_fails fuel count rc d)
  unfolding read_loop
  read-Gives zero count rc d c w h l m =
      if_intro (Gives (unread d) d.transfers (count - rc)) (ltb rc count)
        (λ e. absurd (ground arith)) (λ e. nothing count rc d h (omega (arith, l, m)))
  read-Gives (suc fuel) count rc d c w h l m =
      if_intro (Gives (unread d) d.transfers (count - rc)) (ltb rc count)
        (λ e.
          let n = chunk_size dma status polls copy_fails (count - rc) full in
          let fits : n ≤ full.dma_fill - full.dma_used = chunk_le (count - rc) full in
          let le : n ≤ count - rc = chunk_le_left (count - rc) full in
          let some_bytes : 0 < n = chunk_pos (count - rc) full (ground arith) (refill-room d h) in
          rw (hangs_not d w, c rc)
            (chunk-Gives d (count - rc) n _ h fits le (
              subst
                (λ t.
                  Gives (unread (consume dma status polls copy_fails n full))
                    (consume dma status polls copy_fails n full).transfers t
                    (read_loop dma status polls copy_fails fuel count (rc + n)
                      (consume dma status polls copy_fails n full)))
                (sub_add count rc n)
                (read-Gives fuel count (rc + n) (consume dma status polls copy_fails n full) c w
                  (consume-IsReady full n fits (refill-IsReady d h)) (omega (arith, le, l))
                  (omega (arith, m, some_bytes, le))))))
        (λ e. nothing count rc d h (ground arith))
    where
      full : PsdaqDev
      full = refill dma status polls copy_fails d

  -- On a device that is set up, when the wait for each transfer sees its end within the rounds that it
  -- is given, and no copy to the user fails, a read returns, with all the bytes
  -- that were asked for, and the device stays set up: what was unread in the buffer, with the
  -- transfers that the read started, is what it gave out, followed by what is unread after it.
  pub psdaq_file_read-Gives :
      (count : ℕ) (d : PsdaqDev)
      → ((i : ℕ) → copy_fails i ≡ false)
      → Finishes
      → IsReady d
      → Gives (unread d) d.transfers count (psdaq_file_read dma status polls copy_fails count d)
  unfolding psdaq_file_read
  psdaq_file_read-Gives count d c w h =
      subst
        (λ t.
          Gives (unread d) d.transfers t (read_loop dma status polls copy_fails count count 0 d))
        (whole count) (read-Gives count count 0 d c w h (omega arith) (omega arith))
    where
      whole : (n : ℕ) → n - 0 ≡ n
      whole n = omega arith

-- Whatever the register says, the card is set up for transfers that fill the buffer.
pub init_card_lem :
    (tmpreg dma_hwaddr : ℕ) (d : PsdaqDev)
    → (init_card tmpreg dma_hwaddr d).0.tlp_count * (init_card tmpreg dma_hwaddr d).0.tlp_size
      ≡ buf_size
unfolding init_card choose_tlp_size
init_card_lem tmpreg dma_hwaddr d = ground arith

-- ===== src/Transport/Udp/Peers.antt =====
-- transport/udp.go: to whom a write flow sends its feedback.
use rtq_go_endpoint.Common.{
  ℕ, zero, suc, ◌≡◌, refl, sym, subst, Bool, true, false, ◌&&◌, Option, Option-cases, inl, inr,
  none, some, List, [], ◌∷◌, ◌++◌, map, length, get_elem?, get_elem?-append, get_elem?-append_new,
  if◌then◌else◌,
}
use rtq_go_endpoint.Transport.Udp.{
  Bytes, Addr, Datagram, Udp, new_udp_server, writer, set_addr, same_addr, read, send, write_rtp,
  write_to, write_rtcp, shut, close_writer, close_reader, Event, makes_writer, reads, writes_rtp,
  writes_rtcp, closes_writer, closes_reader, step, run,
}

module _ (takes : Datagram → Bool) where
  -- The address that was read last, or `a`.
  unfoldable pub last_read : Addr → List (Event takes) → Addr
  last_read a [] = a
  last_read a (reads b ∷ es) = last_read b es
  last_read a (makes_writer ∷ es) = last_read a es
  last_read a (writes_rtp header payload ∷ es) = last_read a es
  last_read a (writes_rtcp place buf ∷ es) = last_read a es
  last_read a (closes_writer ∷ es) = last_read a es
  last_read a (closes_reader ∷ es) = last_read a es

  -- `ReadFrom` gives a pointer of its own for each datagram: never the one that it gave just before.
  unfoldable pub AllFresh : Addr → List (Event takes) → Type 0
  AllFresh a [] = Unit
  AllFresh a (reads b ∷ es) = (same_addr b a ≡ false) × AllFresh b es
  AllFresh a (makes_writer ∷ es) = AllFresh a es
  AllFresh a (writes_rtp header payload ∷ es) = AllFresh a es
  AllFresh a (writes_rtcp place buf ∷ es) = AllFresh a es
  AllFresh a (closes_writer ∷ es) = AllFresh a es
  AllFresh a (closes_reader ∷ es) = AllFresh a es

  -- Neither the addresses nor the flows are touched.
  record Keeps (u u' : Udp) : Type 0 where
    writers : u'.writers ≡ u.writers
    reader_addr : u'.reader_addr ≡ u.reader_addr

  send-Keeps : (d : Datagram) (u : Udp) → Keeps u (send takes d u).1
  unfolding send
  send-Keeps d u =
      elim (u.is_open && takes d)
        as (λ b. Keeps u (if b then record u { sent = u.sent ++ (d ∷ []) } else u)) [
          | true ↦ record { writers = refl; reader_addr = refl }
          | false ↦ record { writers = refl; reader_addr = refl }
        ]

  shut-Keeps : (u : Udp) (r : Bool × Udp) → Keeps u r.1 → Keeps u (shut takes r).1
  unfolding shut
  shut-Keeps u (true, u') k = record { writers = k.writers; reader_addr = k.reader_addr }
  shut-Keeps u (false, u') k = k

  -- The events that only send.
  write_rtp-Keeps :
      (header : Option Bytes) (payload : Bytes) (u : Udp)
      → Keeps u (write_rtp takes header payload u).1
  unfolding write_rtp
  write_rtp-Keeps none payload u = record { writers = refl; reader_addr = refl }
  write_rtp-Keeps (some header) payload u = send-Keeps _ u

  write_to-Keeps : (a : Addr) (buf : Option Bytes) (u : Udp) → Keeps u (write_to takes a buf u).1
  unfolding write_to
  write_to-Keeps a none u = record { writers = refl; reader_addr = refl }
  write_to-Keeps a (some buf) u = send-Keeps _ u

  write_rtcp-Keeps :
      (place : ℕ) (buf : Option Bytes) (u : Udp) → Keeps u (write_rtcp takes place buf u).1
  unfolding write_rtcp
  write_rtcp-Keeps place buf u = elim (Option-cases (get_elem? u.writers place)) [
    | inl gone ↦ rw (gone, write_rtcp) (record { writers = refl; reader_addr = refl })
    | inr (a, found) ↦ rw (found, write_rtcp) (write_to-Keeps a buf u)
  ]

  get_elem?-map_const :
      {A : Type 0} (xs : List A) (place : ℕ) (a b : A)
      → get_elem? xs place ≡ some a
      → get_elem? (map (λ _. b) xs) place ≡ some b
  get_elem?-map_const [] place a b h = absurd (cc)
  get_elem?-map_const (x ∷ xs) zero a b h = refl
  get_elem?-map_const (x ∷ xs) (suc place) a b h = get_elem?-map_const xs place a b h

  close_writer-Keeps : (u : Udp) → Keeps u (close_writer takes u).1
  unfolding close_writer
  close_writer-Keeps u = shut-Keeps u _ (send-Keeps _ u)

  close_reader-Keeps : (u : Udp) → Keeps u (close_reader takes u).1
  unfolding close_reader
  close_reader-Keeps u = shut-Keeps u _ (send-Keeps _ u)

  read-changes :
      (b : Addr) (u : Udp)
      → same_addr b u.reader_addr ≡ false
      → read b u ≡ set_addr b (record u { reader_addr = b })
  unfolding read
  read-changes b u fresh = rw fresh refl

  -- A flow that has the address `a` has, after any events, the one that was read last.
  run-follows :
      (es : List (Event takes)) (u : Udp) (place : ℕ) (a : Addr)
      → get_elem? u.writers place ≡ some a
      → AllFresh u.reader_addr es
      → get_elem? (run takes es u).writers place ≡ some (last_read a es)
  unfolding run step last_read AllFresh writer set_addr
  run-follows [] u place a h fresh = h
  run-follows (makes_writer ∷ es) u place a h fresh =
      run-follows es (writer u) place a (get_elem?-append u.writers place none h) fresh
  run-follows (reads b ∷ es) u place a h (fresh, later) =
      subst (λ u'. get_elem? (run takes es u').writers place ≡ some (last_read b es))
        (sym (read-changes b u fresh))
        (run-follows es (set_addr b (record u { reader_addr = b })) place b
          (get_elem?-map_const u.writers place a b h) later)
  run-follows (writes_rtp header payload ∷ es) u place a h fresh =
      let k = write_rtp-Keeps header payload u in
      run-follows es _ place a (rw k.writers h) (rw k.reader_addr fresh)
  run-follows (writes_rtcp p buf ∷ es) u place a h fresh =
      let k = write_rtcp-Keeps p buf u in
      run-follows es _ place a (rw k.writers h) (rw k.reader_addr fresh)
  run-follows (closes_writer ∷ es) u place a h fresh =
      let k = close_writer-Keeps u in
      run-follows es _ place a (rw k.writers h) (rw k.reader_addr fresh)
  run-follows (closes_reader ∷ es) u place a h fresh =
      let k = close_reader-Keeps u in
      run-follows es _ place a (rw k.writers h) (rw k.reader_addr fresh)

  run-append :
      (es later : List (Event takes)) (u : Udp)
      → run takes (es ++ later) u ≡ run takes later (run takes es u)
  unfolding run
  run-append [] later u = refl
  run-append (e ∷ es) later u = run-append es later (step takes e u)

  -- The flow that is made after `before`, on a server whose `ReadFrom` gives each datagram a pointer of its own:
  -- its feedback goes to the address that was read last since the flow was made, and to the nil address
  -- if none was, however many packets were read before.
  pub feedback_to_last_peer :
      (before after : List (Event takes)) (buf : Bytes)
      → AllFresh (run takes before new_udp_server).reader_addr after
      → write_rtcp takes
          (length (run takes before new_udp_server).writers)
          (some buf)
          (run takes (before ++ (makes_writer ∷ after)) new_udp_server)
        ≡ send takes
            (record { to = some (last_read none after); bytes = buf })
            (run takes (before ++ (makes_writer ∷ after)) new_udp_server)
  unfolding write_rtcp write_to writer run step
  feedback_to_last_peer before after buf fresh =
      let u = run takes before new_udp_server in
      let whole : run takes (before ++ (makes_writer ∷ after)) new_udp_server
          ≡ run takes after (writer u) =
        run-append before (makes_writer ∷ after) new_udp_server in
      let found : get_elem? (run takes (before ++ (makes_writer ∷ after)) new_udp_server).writers
            (length u.writers)
          ≡ some (last_read none after) =
        rw whole (
          run-follows after (writer u) (length u.writers) none (get_elem?-append_new u.writers none)
            fresh) in
      rw (found, write_rtcp) refl

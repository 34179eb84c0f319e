-- ===== src/Rtc/FeedbackInferer/Insertion.antt =====
-- An insertion sort, as the `sort.Slice` that rtc/feedback_inferer.go calls, for runs on concrete data.
use mathlib.Core.List.{Perm}
use mathlib.Core.List.Perm
use native.Mathlib.Decide.{dec_le}
use rtq_go_endpoint.Common.{
  ℕ, ◌≤◌, ◌<◌, ◌≡◌, sym, subst, true, false, List, [], ◌∷◌, All, leb, arith,
}
use rtq_go_endpoint.Rtc.FeedbackInferer.{AckedPkt, Ascending, SortSlice}

unfoldable pub insert_pkt : AckedPkt → List AckedPkt → List AckedPkt
insert_pkt p [] = p ∷ []
insert_pkt p (q ∷ qs) = elim (leb p.seq_nr q.seq_nr) [
  | true ↦ p ∷ q ∷ qs
  | false ↦ q ∷ insert_pkt p qs
]

unfoldable pub sort_pkts : List AckedPkt → List AckedPkt
sort_pkts [] = []
sort_pkts (p ∷ ps) = insert_pkt p (sort_pkts ps)

insert_pkt-perm : (p : AckedPkt) (qs : List AckedPkt) → Perm (p ∷ qs) (insert_pkt p qs)
unfolding insert_pkt
insert_pkt-perm p [] = Perm.refl (p ∷ [])
insert_pkt-perm p (q ∷ qs) =
    elim (leb p.seq_nr q.seq_nr)
      as (λ b. Perm (p ∷ q ∷ qs) (elim b [ true ↦ p ∷ q ∷ qs | false ↦ q ∷ insert_pkt p qs ])) [
        | true ↦ Perm.refl (p ∷ q ∷ qs)
        | false ↦ Perm.trans (Perm.swap q p qs) (Perm.cons q (insert_pkt-perm p qs))
      ]

All-insert_pkt :
    (n : ℕ) (p : AckedPkt) (qs : List AckedPkt)
    → n ≤ p.seq_nr
    → All (λ r. n ≤ r.seq_nr) qs
    → All (λ r. n ≤ r.seq_nr) (insert_pkt p qs)
unfolding insert_pkt
All-insert_pkt n p [] h a = (h, tt)
All-insert_pkt n p (q ∷ qs) h a =
    elim (leb p.seq_nr q.seq_nr)
      as (λ b.
        All (λ (r : AckedPkt). n ≤ r.seq_nr)
          (elim b [ true ↦ p ∷ q ∷ qs | false ↦ q ∷ insert_pkt p qs ])) [
            | true ↦ (h, a)
            | false ↦ (a.0, All-insert_pkt n p qs h a.1)
          ]

All-from :
    (n m : ℕ) (qs : List AckedPkt) → n ≤ m → All (λ r. m ≤ r.seq_nr) qs → All (λ r. n ≤ r.seq_nr) qs
All-from n m [] h a = tt
All-from n m (q ∷ qs) h a = (omega arith, All-from n m qs h a.1)

insert_before :
    (p q : AckedPkt) (qs : List AckedPkt) → p.seq_nr ≤ q.seq_nr → insert_pkt p (q ∷ qs) ≡ p ∷ q ∷ qs
unfolding insert_pkt
insert_before p q qs h = ground arith

insert_after :
    (p q : AckedPkt) (qs : List AckedPkt)
    → q.seq_nr < p.seq_nr
    → insert_pkt p (q ∷ qs) ≡ q ∷ insert_pkt p qs
unfolding insert_pkt
insert_after p q qs h = ground arith

insert_pkt-Ascending :
    (p : AckedPkt) (qs : List AckedPkt) → Ascending qs → Ascending (insert_pkt p qs)
insert_pkt-Ascending p [] a = unfold insert_pkt in (tt, tt)
insert_pkt-Ascending p (q ∷ qs) a = elim (dec_le p.seq_nr q.seq_nr) [
  | yes h ↦
      subst Ascending (sym (insert_before p q qs h)) ((h, All-from p.seq_nr q.seq_nr qs h a.0), a)
  | no h ↦
      subst Ascending (sym (insert_after p q qs (omega arith)))
        (All-insert_pkt q.seq_nr p qs (omega arith) a.0, insert_pkt-Ascending p qs a.1)
]

pub sort_pkts-perm : (ps : List AckedPkt) → Perm ps (sort_pkts ps)
unfolding sort_pkts
sort_pkts-perm [] = Perm.refl []
sort_pkts-perm (p ∷ ps) =
    Perm.trans (Perm.cons p (sort_pkts-perm ps)) (insert_pkt-perm p (sort_pkts ps))

pub sort_pkts-Ascending : (ps : List AckedPkt) → Ascending (sort_pkts ps)
unfolding sort_pkts
sort_pkts-Ascending [] = tt
sort_pkts-Ascending (p ∷ ps) = insert_pkt-Ascending p (sort_pkts ps) (sort_pkts-Ascending ps)

abbrev pub by_insertion : SortSlice
by_insertion = record {
  sort = sort_pkts;
  sort-perm = sort_pkts-perm;
  sort-Ascending = sort_pkts-Ascending;
}

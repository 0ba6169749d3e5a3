-- ===== src/Connection/Link/Both.antt =====
-- The two directions of a connection together (net_connection.h).
use servy.Prelude.{
  ◌≡◌, refl, ap, sym, ◌∙◌, inl, inr, true, false, List, [], ◌++◌, All, All-append_left,
  All-append_right, All-append,
}
use mathlib.Core.Path.{subst}
use mathlib.Core.Option.{some-injective}
use servy.Message.{Message}
use servy.Connection.Wire.{IsFramed}
use servy.Connection.Stream.{Stream, Step, Reach, SameReading, SameWriting}
use servy.Connection.Stream
use servy.Connection.Flush.{Reach-trans}
use servy.Connection.Reading.{on_read_failed}
use servy.Connection.Arrival.{arrived, contents}
use servy.Connection.Delivery.{IsEstablished, arrive_in_order}
use servy.Connection.Link.{
  Link, swap, forward, EndStep, sends, transfers, completes, write_fails, reads, read_fails, closes,
  LinkStep, LinkReach, here, next,
}
use servy.Connection.Link.Past.{
  IsPast, header_ne, WritePast, ReadPast, middle, without, send-IsPast, on_written-IsPast,
  on_written_failed, on_read-IsPast,
}
use servy.Connection.Link.Turns.{EndStep-other}
use servy.Connection.Link.Halves.{send-SameReading, on_written-SameReading, on_read-SameWriting}

-- What one end does is a step of the direction in which it sends, and steps of the other one.
abbrev Projects : Link → Link → Type 0
Projects l m = Reach (forward l) (forward m) × Reach (forward (swap l)) (forward (swap m))

EndStep-Projects : (l m : Link) → EndStep l m → IsPast l.a → Projects l m
EndStep-Projects l m (sends msg c h e) v = (
  Stream.next Stream.here (Step.sends msg c h (ap forward e)),
  Stream.next Stream.here
      (Step.receiver_writes c (send-SameReading l.a c msg h) (ap (λ m. forward (swap m)) e)),
)
EndStep-Projects l m (transfers what byte left pre post o h e) v = (
  Stream.next Stream.here (Step.transfers what byte left pre post o h (ap forward e)),
  Stream.next Stream.here (
      Step.receiver_writes _
        (record { is_open = refl; temporary_in = refl; reads = refl; messages_in = refl })
        (ap (λ m. forward (swap m)) e)),
)
EndStep-Projects l m (completes what pre post c h k e) v =
    let n = middle WritePast pre post _ (subst (All WritePast) h v.writes) in
    let same = on_written-SameReading what (record l.a { writes = pre ++ post }) c n k in
    (
      Stream.next Stream.here (Step.completes what pre post c h k (ap forward e)),
      Stream.next Stream.here (
          Step.receiver_writes c
            (record {
              is_open = same.is_open;
              temporary_in = same.temporary_in;
              reads = same.reads;
              messages_in = same.messages_in;
            })
            (ap (λ m. forward (swap m)) e)),
    )
EndStep-Projects l m (write_fails x pre post c h k e) v =
    let popped = record l.a { writes = pre ++ post } in
    let closed = some-injective _ _ (sym (on_written_failed x.what popped) ∙ k) in
    let first = forward (swap (record l { a = popped })) in
    let last : Step first (forward (swap m)) =
      Step.receiver_closes (
        ap (λ m. forward (swap m)) e
        ∙ ap (λ c. forward (swap (record l { a = c }))) (sym closed)) in
    (
      Stream.next Stream.here (Step.write_fails x pre post c h k (ap forward e)),
      Stream.next
          (Stream.next Stream.here (
            Step.receiver_writes popped
              (record { is_open = refl; temporary_in = refl; reads = refl; messages_in = refl })
              refl))
          last,
    )
EndStep-Projects l m (reads what bytes rest pre post o h k e) v =
    let n = middle ReadPast pre post _ (subst (All ReadPast) h v.reads) in
    let same = on_read-SameWriting what bytes (record l.a { reads = pre ++ post }) n in
    (
      Stream.next Stream.here (
          Step.sender_reads _
            (record {
              is_open = same.is_open;
              messages_out = same.messages_out;
              writes = same.writes;
            })
            (ap forward e)),
      Stream.next Stream.here
          (Step.reads what bytes rest pre post o h k (ap (λ m. forward (swap m)) e)),
    )
EndStep-Projects l m (read_fails r pre post bytes h e) v =
    let popped = record l.a { reads = pre ++ post } in
    let first = forward (record l { a = popped }) in
    let last : Step first (forward m) = Step.sender_closes (
      ap forward e ∙ ap (λ c. forward (record l { a = c })) (on_read_failed r.what bytes popped)) in
    (
      Stream.next
          (Stream.next Stream.here (
            Step.sender_reads popped (record { is_open = refl; messages_out = refl; writes = refl })
              refl))
          last,
      Stream.next Stream.here (Step.read_fails r pre post bytes h (ap (λ m. forward (swap m)) e)),
    )
EndStep-Projects l m (closes e) v = (
  Stream.next Stream.here (Step.sender_closes (ap forward e)),
  Stream.next Stream.here (Step.receiver_closes (ap (λ m. forward (swap m)) e)),
)

EndStep-IsPast : (l m : Link) → EndStep l m → IsPast l.a → IsPast m.a
EndStep-IsPast l m (sends msg c h e) v = rw e (send-IsPast l.a c msg h v)
EndStep-IsPast l m (transfers what byte left pre post o h e) v =
    let all = subst (All WritePast) h v.writes in
    rw e (record {
      writes =
          All-append WritePast pre _ (All-append_left WritePast pre _ all)
            (All-append_right WritePast pre _ all);
      reads = v.reads;
    })
EndStep-IsPast l m (completes what pre post c h k e) v =
    let all = subst (All WritePast) h v.writes in
    rw e (
      on_written-IsPast what true (record l.a { writes = pre ++ post }) c
        (middle WritePast pre post _ all) k
        (record { writes = without WritePast pre post _ all; reads = v.reads }))
EndStep-IsPast l m (write_fails w pre post c h k e) v =
    let all = subst (All WritePast) h v.writes in
    rw e (
      on_written-IsPast w.what false (record l.a { writes = pre ++ post }) c
        (middle WritePast pre post _ all) k
        (record { writes = without WritePast pre post _ all; reads = v.reads }))
EndStep-IsPast l m (reads what bytes rest pre post o h k e) v =
    let all = subst (All ReadPast) h v.reads in
    rw e (
      on_read-IsPast what true bytes (record l.a { reads = pre ++ post })
        (middle ReadPast pre post _ all)
        (record { writes = v.writes; reads = without ReadPast pre post _ all }))
EndStep-IsPast l m (read_fails r pre post bytes h e) v =
    let all = subst (All ReadPast) h v.reads in
    rw e (
      on_read-IsPast r.what false bytes (record l.a { reads = pre ++ post })
        (middle ReadPast pre post _ all)
        (record { writes = v.writes; reads = without ReadPast pre post _ all }))
EndStep-IsPast l m (closes e) v = rw e (record { writes = v.writes; reads = v.reads })

-- A link that has come from `l`, in both of its directions.
pub record IsJoined (l m : Link) : Type 0 where
  pub past_a : IsPast m.a
  pub past_b : IsPast m.b
  pub forth : Reach (forward l) (forward m)
  pub back : Reach (forward (swap l)) (forward (swap m))

EndStep-IsJoined : (l m n : Link) → EndStep m n → IsJoined l m → IsJoined l n
EndStep-IsJoined l m n st v =
    let (forth, back) = EndStep-Projects m n st v.past_a in
    record {
      past_a = EndStep-IsPast m n st v.past_a;
      past_b = subst IsPast (sym (EndStep-other m n st)) v.past_b;
      forth = Reach-trans v.forth forth;
      back = Reach-trans v.back back;
    }

turned : (l m : Link) → IsJoined l m → IsJoined (swap l) (swap m)
turned l m v = record { past_a = v.past_b; past_b = v.past_a; forth = v.back; back = v.forth }

pub LinkStep-IsJoined : (l m n : Link) → LinkStep m n → IsJoined l m → IsJoined l n
LinkStep-IsJoined l m n (inl st) v = EndStep-IsJoined l m n st v
LinkStep-IsJoined l m n (inr st) v =
    turned (swap l) (swap n) (EndStep-IsJoined (swap l) (swap m) (swap n) st (turned l m v))

pub IsEstablished-IsJoined :
    (l : Link) → IsEstablished (forward l) → IsEstablished (forward (swap l)) → IsJoined l l
IsEstablished-IsJoined l e e' = record {
  past_a = record {
    writes = subst (All WritePast) (sym e.no_write) tt;
    reads = subst (All ReadPast) (sym e'.header_awaited) (header_ne, tt);
  };
  past_b = record {
    writes = subst (All WritePast) (sym e'.no_write) tt;
    reads = subst (All ReadPast) (sym e.header_awaited) (header_ne, tt);
  };
  forth = Stream.here;
  back = Stream.here;
}

LinkReach-IsJoined : {l m : Link} → IsJoined l l → LinkReach l m → IsJoined l m
LinkReach-IsJoined v here = v
LinkReach-IsJoined {l} v (next {m} {n} r st) = LinkStep-IsJoined l m n st (LinkReach-IsJoined v r)

-- From an established connection, in every state that its two ends can lead to, if all messages that
-- they have sent are framed, each of them has queued a first part of the messages that the other has
-- sent, in order, as `arrived` says.
pub both_arrive_in_order :
    (l m : Link)
    → IsEstablished (forward l)
    → IsEstablished (forward (swap l))
    → LinkReach l m
    → All IsFramed m.sent_a
    → All IsFramed m.sent_b
    → ((done pending : List Message) × (m.sent_a ≡ done ++ pending)
        × (contents m.b.messages_in ≡ arrived [] done))
      × ((done pending : List Message) × (m.sent_b ≡ done ++ pending)
          × (contents m.a.messages_in ≡ arrived [] done))
both_arrive_in_order l m e e' r f f' =
    let v = LinkReach-IsJoined (IsEstablished-IsJoined l e e') r in
    (
      arrive_in_order (forward l) (forward m) e v.forth f,
      arrive_in_order (forward (swap l)) (forward (swap m)) e' v.back f',
    )

-- ===== src/Delivery.antt =====
-- A connection from end to end: io_transport::write and do_write of one peer, and do_read of the other,
-- of yasio/io_service.cpp. The network between them hands the bytes on in order, cut at any places.
use yasio.Base.{
  ℕ, suc, ◌^◌, ◌≤◌, ◌<◌, ◌≡◌, ap, sym, subst, ◌∙◌, List, [], ◌++◌, map, concat, length, drop, All,
}
use yasio.Base.Outcome.{ok}
use yasio.Endian.{Width, size_of}
use yasio.Frame.{Transport, Progress, builtin_decode_len}
use yasio.Frame.Run
use yasio.Frame.Complete.{no_bytes}
use yasio.Frame.Decode.{idle}
use yasio.Frame.Messages.{message, messages, message_params, IsSendable, messages-arrive}
use yasio.Sending.{Sender}
use yasio.Sending.Stream.{Step, run, TakesAll, given, unsent, run-keeps}
use yasio.Sending.Drain.{pump, pump-sends}

module _ (taken : ℕ → ℕ → ℕ)
    (takes : (k n : ℕ) → (1 ≤ taken k (suc n)) × (taken k (suc n) ≤ suc n)) where
  -- The bytes on the wire: those that were sent while the user wrote, and those of the turns after it.
  abbrev pub wire : ℕ → Sender → List Step → List ℕ
  wire j s xs = (run s xs).wire ++ (pump taken takes j (run s xs).sender).wire

  pub wire-given :
      (j : ℕ) (s : Sender) (xs : List Step)
      → s.send_queue ≡ []
      → TakesAll s xs
      → length (unsent (run s xs).sender.send_queue) ≤ j
      → wire j s xs ≡ given xs
  wire-given j s xs e t h =
      let (bytes, handlers, pending) = run-keeps xs s (subst (All _) (sym e) tt) t in
      ap (λ w. (run s xs).wire ++ w) (pump-sends taken takes j (run s xs).sender pending h).0
      ∙ bytes
      ∙ ap (λ q. unsent q ++ given xs) e

  -- Messages that a user gives to a fresh connection, in buffers of any sizes, reach the user of the
  -- other end. The length field has at most four bytes, no more bytes are stripped than it has, and each
  -- message keeps to `max_frame_length`, which is less than 2 ^ 31. The kernel takes no more than it is
  -- given, and after the user has written at least a byte in each turn, of which there are as many as
  -- bytes are left; the bytes arrive in order, cut at any places; and the reader makes more empty reads
  -- after them than there are bytes. Then it does not throw, and hands on each message once, in order,
  -- and without the bytes to strip.
  pub wire-delivers :
      (w : Width) (max strip j k : ℕ) (vss cs : List (List ℕ)) (s : Sender) (xs : List Step)
      (t : Transport)
      → size_of w ≤ 4
      → max < 2 ^ 31
      → strip ≤ size_of w
      → All (IsSendable w max) vss
      → s.send_queue ≡ []
      → TakesAll s xs
      → given xs ≡ messages w vss
      → length (unsent (run s xs).sender.send_queue) ≤ j
      → concat cs ≡ wire j s xs
      → length (messages w vss) < k
      → (p : Progress) × (Run.run
            (builtin_decode_len (message_params w max strip))
            strip
            (idle t)
            (cs ++ no_bytes k)
          ≡ ok p)
        × (p.packets ≡ map (λ vs. drop strip (message w vs)) vss)
  wire-delivers w max strip j k vss cs s xs t small bound head sendable fresh takes_all gives
        drained arrives often =
      messages-arrive w max strip vss cs k t small bound head sendable
        (arrives ∙ wire-given j s xs fresh takes_all drained ∙ gives) often

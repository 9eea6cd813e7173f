-- ===== src/Channel/Receiving/Delivered.antt =====
-- What the callbacks of the two channels get.
use servo_fleet.Prelude.{
  ℕ, ◌&&◌, ◌||◌, not, if◌then◌else◌, Bool, true, false, List, [], ◌∷◌, ◌++◌, some, ◌≡◌, refl, arith,
  ap, ◌∙◌,
}
use servo_fleet.Channel.Receiving.{
  Endpoint, is_expected_sender, Answer, Poll, deliver, receive_available, rx_loop, received_from,
  would_block, connection_reset, operation_aborted, failed,
}

abbrev pub is_datagram : Answer → Bool
is_datagram a = elim a [ received_from sender bytes ↦ true | _ ↦ false ]

-- The polls before the first that satisfies a test.
abbrev pub before : (Poll → Bool) → List Poll → List Poll
before ends [] = []
before ends (p ∷ polls) = let rest = before ends polls in if ends p then [] else p ∷ rest

abbrev pub any : (Poll → Bool) → List Poll → Bool
any ends [] = false
any ends (p ∷ polls) = ends p || any ends polls

-- The datagrams of a sender with the address of `remote`, and its port unless that is 0.
abbrev pub datagram_from : Endpoint → Poll → List (List ℕ)
datagram_from remote p = elim p.answer [
  | received_from sender bytes ↦ if is_expected_sender remote sender then bytes ∷ [] else []
  | _ ↦ []
]

abbrev pub datagrams_from : Endpoint → List Poll → List (List ℕ)
datagrams_from remote [] = []
datagrams_from remote (p ∷ polls) = datagram_from remote p ++ datagrams_from remote polls

abbrev pub is_over : Poll → Bool
is_over p = not p.goes_on

abbrev pub is_dry : Poll → Bool
is_dry p = not (p.goes_on && is_datagram p.answer)

rx_step :
    (remote : Endpoint) (goes_on : Bool) (answer : Answer) (polls : List Poll)
    → (any is_over polls ≡ true
        → rx_loop remote polls ≡ some (datagrams_from remote (before is_over polls)))
    → let p : Poll = record { goes_on = goes_on; answer = answer } in
      any is_over (p ∷ polls) ≡ true
      → rx_loop remote (p ∷ polls) ≡ some (datagrams_from remote (before is_over (p ∷ polls)))
unfolding rx_loop
rx_step remote false answer polls ih h = refl
rx_step remote true (received_from sender bytes) polls ih h =
    ap (deliver (is_expected_sender remote sender) bytes) (ih h) ∙ ground arith
rx_step remote true would_block polls ih h = ih h
rx_step remote true connection_reset polls ih h = ih h
rx_step remote true operation_aborted polls ih h = ih h
rx_step remote true failed polls ih h = ih h

dry_step :
    (remote : Endpoint) (goes_on : Bool) (answer : Answer) (polls : List Poll)
    → (any is_dry polls ≡ true
        → receive_available remote polls ≡ some (datagrams_from remote (before is_dry polls)))
    → let p : Poll = record { goes_on = goes_on; answer = answer } in
      any is_dry (p ∷ polls) ≡ true
      → receive_available remote (p ∷ polls)
        ≡ some (datagrams_from remote (before is_dry (p ∷ polls)))
unfolding receive_available
dry_step remote false answer polls ih h = refl
dry_step remote true (received_from sender bytes) polls ih h =
    ap (deliver (is_expected_sender remote sender) bytes) (ih h) ∙ ground arith
dry_step remote true would_block polls ih h = refl
dry_step remote true connection_reset polls ih h = refl
dry_step remote true operation_aborted polls ih h = refl
dry_step remote true failed polls ih h = refl

-- The receive loop of the realtime channel, if it is stopped at last: its callback gets, in order,
-- the datagrams from the expected sender that came before the stop, whatever errors come between
-- them.
pub rx_loop_lem :
    (remote : Endpoint) (polls : List Poll)
    → any is_over polls ≡ true
    → rx_loop remote polls ≡ some (datagrams_from remote (before is_over polls))
rx_loop_lem remote [] h = cc
rx_loop_lem remote (p ∷ polls) h =
    rx_step remote p.goes_on p.answer polls (rx_loop_lem remote polls) h

-- One call of `receive_available` of the plain channel, if the socket has no datagram at last, or an
-- error, or is closed: its callback gets, in order, the datagrams from the expected sender that
-- came before that.
pub receive_available_lem :
    (remote : Endpoint) (polls : List Poll)
    → any is_dry polls ≡ true
    → receive_available remote polls ≡ some (datagrams_from remote (before is_dry polls))
receive_available_lem remote [] h = cc
receive_available_lem remote (p ∷ polls) h =
    dry_step remote p.goes_on p.answer polls (receive_available_lem remote polls) h

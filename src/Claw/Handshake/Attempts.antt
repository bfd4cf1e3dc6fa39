-- ===== src/Claw/Handshake/Attempts.antt =====
-- The attempt budget of cmd/claw/secure_handshake.go.
use daemontest.Prelude.{
  ℕ, zero, suc, ◌-◌, ◌^◌, ◌≤◌, ◌<◌, ◌≡◌, refl, ap, ◌∙◌, Bool, true, false, ◌||◌, not, List, [], ◌∷◌,
  Option, none, some, arith, leb, and-left, and-right, ◌&&◌, length,
}
use daemontest.Prelude.Int.{ℤ, pos, negsuc, ◌+ℤ◌, wrap32, ltb_ℤ}
use daemontest.Prelude.Bytes.{Bytes}
use daemontest.Claw.Protocol.{Message, message_of, type_sec_code_error, max_sec_code_attempts}
use daemontest.Claw.Primitives.{Primitives}
use daemontest.Claw.Crypto.{Crypto}
use daemontest.Claw.Spake2.{Generators, finish}
use daemontest.Claw.Handshake.{
  Daemon, without_pake, rejected, confirmed, handle_pake_start, handle_sec_confirm, accepted,
}

-- An attempt: a `pake_start` with the scalar drawn for it, and the `sec_confirm` that follows.
pub record Attempt : Type 0 where
  pub draw : Option ℕ
  pub start : Message
  pub confirm : Message

abbrev error_message : ℤ → Message
error_message left = record (message_of type_sec_code_error) { remaining_attempts = left }

decrement : (n : ℕ) → n < 2 ^ 31 - 1 → wrap32 (pos (suc n) +ℤ negsuc 0) ≡ pos n
unfolding wrap32 ◌+ℤ◌
decrement n h = ground arith

-- With a code set and attempts left, a rejection takes one, and the last one schedules the exit.
rejected_enabled :
    (d : Daemon) (n : ℕ)
    → d.sec_code_enabled ≡ true
    → d.sec_code_attempts_left ≡ pos (suc n)
    → n < 2 ^ 31 - 1
    → rejected d ≡ (
      record d {
        sec_code_attempts_left = pos n;
        exiting = d.exiting || not (ltb_ℤ (pos 0) (pos n));
      },
      error_message (pos n) ∷ [],
    )
unfolding rejected
rejected_enabled d n e h lt = rw (e, h, decrement n lt) refl

exit_left : (b : Bool) (n : ℕ) → b ≡ leb (suc n) 0 → b || not (ltb_ℤ (pos 0) (pos n)) ≡ leb n 0
exit_left b n h = ground arith

leb-suc : (m k : ℕ) → leb m k ≡ leb (suc m) (suc k)
leb-suc m k = ground arith

refuse :
    {K R : Type 0} (k : Option K) (r : R) (accept : K → R)
    → (elim k [ none ↦ true | some x ↦ false ]) ≡ true
    → (elim k [ none ↦ r | some x ↦ accept x ]) ≡ r
refuse none r accept h = refl
refuse (some k) r accept h = absurd (ground arith)

-- Where a server and a session id are there and the check of them fails, the branch for that is taken.
refuse_pair :
    {S B K R : Type 0} (o : Option S) (q : Option B) (check : S → B → Option K) (idle r : R)
    (accept : K → R)
    → (elim o [
      | none ↦ false
      | some s ↦ elim q [
        | none ↦ false
        | some b ↦ elim (check s b) [ none ↦ true | some k ↦ false ]
      ]
    ])
      ≡ true
    → (elim o [
      | none ↦ idle
      | some s ↦ elim q [ none ↦ idle | some b ↦ elim (check s b) [ none ↦ r | some k ↦ accept k ] ]
    ])
      ≡ r
refuse_pair none q check idle r accept h = absurd (ground arith)
refuse_pair (some s) none check idle r accept h = absurd (ground arith)
refuse_pair (some s) (some b) check idle r accept h = refuse (check s b) r accept h

module _ (p : Primitives) (c : Crypto) (g : Generators) where
  start-attempts_left :
      (code : Bytes) (draw : Option ℕ) (msg : Message) (d : Daemon)
      → (handle_pake_start p c g code draw msg d).0.sec_code_attempts_left
        ≡ d.sec_code_attempts_left
  unfolding handle_pake_start
  start-attempts_left code draw msg d = ground arith

  start-enabled :
      (code : Bytes) (draw : Option ℕ) (msg : Message) (d : Daemon)
      → (handle_pake_start p c g code draw msg d).0.sec_code_enabled ≡ d.sec_code_enabled
  unfolding handle_pake_start
  start-enabled code draw msg d = ground arith

  start-exiting :
      (code : Bytes) (draw : Option ℕ) (msg : Message) (d : Daemon)
      → (handle_pake_start p c g code draw msg d).0.exiting ≡ d.exiting
  unfolding handle_pake_start
  start-exiting code draw msg d = ground arith

  -- A handshake is under way, and the tag of `sec_confirm` is not the right one.
  unfoldable pub is_wrong : Message → Daemon → Bool
  unfolding confirmed finish
  is_wrong msg d = elim d.pake_server [
    | none ↦ false
    | some server ↦ elim d.pake_sid [
      | none ↦ false
      | some sid ↦ elim (confirmed p c g (finish c g server sid d.pake_access_key) msg.tag_a) [
        | none ↦ true
        | some k ↦ false
      ]
    ]
  ]

  handle_sec_confirm_wrong :
      (msg : Message) (d : Daemon)
      → is_wrong msg d ≡ true
      → handle_sec_confirm p c g msg d ≡ rejected (without_pake d)
  unfolding is_wrong handle_sec_confirm
  handle_sec_confirm_wrong msg d h =
      refuse_pair d.pake_server d.pake_sid
        (λ server sid. confirmed p c g (finish c g server sid d.pake_access_key) msg.tag_a) (d, [])
        (rejected (without_pake d)) (λ k. accepted p c g k.0 k.1 (without_pake d)) h

  unfoldable pub started : Bytes → Attempt → Daemon → Daemon
  unfolding handle_pake_start
  started code a d = (handle_pake_start p c g code a.draw a.start d).0

  unfoldable pub attempt : Bytes → Attempt → Daemon → Daemon
  unfolding started handle_sec_confirm
  attempt code a d = (handle_sec_confirm p c g a.confirm (started code a d)).0

  unfoldable pub attempts : Bytes → List Attempt → Daemon → Daemon
  unfolding attempt
  attempts code [] d = d
  attempts code (a ∷ more) d = attempts code more (attempt code a d)

  unfoldable pub all_wrong : Bytes → List Attempt → Daemon → Bool
  unfolding is_wrong started attempt
  all_wrong code [] d = true
  all_wrong code (a ∷ more) d =
      let others = all_wrong code more (attempt code a d) in
      is_wrong a.confirm (started code a d) && others

  attempt_wrong :
      (code : Bytes) (a : Attempt) (d : Daemon) (n : ℕ)
      → d.sec_code_enabled ≡ true
      → d.sec_code_attempts_left ≡ pos (suc n)
      → n < 2 ^ 31 - 1
      → is_wrong a.confirm (started code a d) ≡ true
      → attempt code a d ≡ record (without_pake (started code a d)) {
        sec_code_attempts_left = pos n;
        exiting = d.exiting || not (ltb_ℤ (pos 0) (pos n));
      }
  unfolding attempt started without_pake
  attempt_wrong code a d n e h lt w =
      ap (λ r. r.0)
        (handle_sec_confirm_wrong a.confirm (started code a d) w
          ∙ rejected_enabled (without_pake (started code a d)) n
              (start-enabled code a.draw a.start d ∙ e)
              (start-attempts_left code a.draw a.start d ∙ h) lt)
      ∙ ap
          (λ b. record (without_pake (started code a d)) {
            sec_code_attempts_left = pos n;
            exiting = b || not (ltb_ℤ (pos 0) (pos n));
          })
          (start-exiting code a.draw a.start d)

  -- What the budget decides, of a daemon with a security code.
  budget-attempts :
      (code : Bytes) (tries : List Attempt) (d : Daemon) (n : ℕ)
      → d.sec_code_enabled ≡ true
      → d.sec_code_attempts_left ≡ pos n
      → d.exiting ≡ leb n 0
      → n < 2 ^ 31
      → length tries ≤ n
      → all_wrong code tries d ≡ true
      → ((attempts code tries d).sec_code_attempts_left ≡ pos (n - length tries))
        × ((attempts code tries d).exiting ≡ leb n (length tries))
  unfolding attempts all_wrong
  budget-attempts code [] d n e h x lt le w = (h ∙ ap pos (omega arith), x)
  budget-attempts code (a ∷ more) d zero e h x lt le w = absurd (omega arith)
  budget-attempts code (a ∷ more) d (suc n) e h x lt le w =
      let s = attempt_wrong code a d n e h (omega arith) (and-left _ _ w) in
      let (left, out) =
        budget-attempts code more (attempt code a d) n
          (ap (λ d. d.sec_code_enabled) s ∙ start-enabled code a.draw a.start d ∙ e)
          (ap (λ d. d.sec_code_attempts_left) s) (ap (λ d. d.exiting) s ∙ exit_left d.exiting n x)
          (omega arith) (omega arith) (and-right _ _ w) in
      (left ∙ ap pos (omega arith), out ∙ leb-suc n (length more))

  -- A daemon that has a security code, its full budget and no exit scheduled, and that gets at most 11
  -- handshakes in a row that each reach `sec_confirm` with a wrong tag, has 11 less their number left,
  -- and the exit is scheduled exactly when they are 11.
  pub attempts-lockout :
      (code : Bytes) (tries : List Attempt) (d : Daemon)
      → d.sec_code_enabled ≡ true
      → d.sec_code_attempts_left ≡ pos max_sec_code_attempts
      → d.exiting ≡ false
      → length tries ≤ max_sec_code_attempts
      → all_wrong code tries d ≡ true
      → ((attempts code tries d).sec_code_attempts_left
          ≡ pos (max_sec_code_attempts - length tries))
        × ((attempts code tries d).exiting ≡ leb max_sec_code_attempts (length tries))
  attempts-lockout code tries d e h x le w =
      budget-attempts code tries d max_sec_code_attempts e h x (omega arith) le w

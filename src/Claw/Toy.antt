-- ===== src/Claw/Toy.antt =====
-- Library functions with the laws of `Primitives`, so simple that tests can run them: a cipher that
-- appends a tag, base64 as the identity, and a length-prefixed codec for messages.
use daemontest.Prelude.{
  ℕ, ◌-◌, ◌≡◌, refl, ap, ◌∙◌, [], ◌∷◌, ◌++◌, Option, some, length, take, drop, replicate, arith,
  length-append, take-append, drop-append,
}
use daemontest.Prelude.Int.{ℤ, pos, negsuc, pos_part, neg_part, sub_ℕ}
use daemontest.Prelude.Bytes.{Bytes}
use daemontest.Claw.Protocol.{Message}
use daemontest.Claw.Primitives.{Primitives}

abbrev tag : Bytes
tag = replicate 16 0

abbrev seal : Bytes → Bytes → Bytes → Bytes
seal key nonce text = text ++ tag

abbrev unseal : Bytes → Bytes → Bytes → Option Bytes
unseal key nonce ct = some (take (length ct - 16) ct)

pub unseal-seal : (key nonce text : Bytes) → unseal key nonce (seal key nonce text) ≡ some text
unseal-seal key nonce text =
    ap (λ n. some (take n (text ++ tag))) {y = length text} (omega (arith, length-append text tag))
    ∙ ap some (take-append text tag)

abbrev put : Bytes → Bytes → Bytes
put s rest = length s ∷ s ++ rest

abbrev field : Bytes → Bytes
field [] = []
field (n ∷ b) = take n b

abbrev behind : Bytes → Bytes
behind [] = []
behind (n ∷ b) = drop n b

abbrev number : Bytes → ℕ
number [] = 0
number (n ∷ b) = n

abbrev marshal : Message → Option Bytes
marshal m = some (
    m.seq
    ∷ pos_part m.remaining_attempts
    ∷ neg_part m.remaining_attempts
    ∷ put m.type (
        put m.reason (
          put m.session_id
            (put m.payload (put m.sid (put m.pa (put m.pb (put m.tag_a (put m.tag_b [])))))))))

abbrev unmarshal : Bytes → Option Message
unmarshal b =
    let b0 = drop 3 b in
    let b1 = behind b0 in
    let b2 = behind b1 in
    let b3 = behind b2 in
    let b4 = behind b3 in
    let b5 = behind b4 in
    let b6 = behind b5 in
    let b7 = behind b6 in
    let b8 = behind b7 in
    some (record {
      type = field b0;
      reason = field b1;
      session_id = field b2;
      payload = field b3;
      seq = number b;
      sid = field b4;
      pa = field b5;
      pb = field b6;
      tag_a = field b7;
      tag_b = field b8;
      remaining_attempts = sub_ℕ (number (drop 1 b)) (number (drop 2 b));
    })

signed : (i : ℤ) → sub_ℕ (pos_part i) (neg_part i) ≡ i
signed (pos n) = ground arith
signed (negsuc n) = ground arith

pub unmarshal-marshal : (m : Message) (b : Bytes) → marshal m ≡ some b → unmarshal b ≡ some m
unmarshal-marshal m b e = rw (← some_back e) (simp (take-append, drop-append, signed))
  where
    some_back : {x y : Bytes} → some x ≡ some y → x ≡ y
    some_back h = cc

abbrev pub toy : Primitives
toy = record {
  seal = seal;
  unseal = unseal;
  encode = λ b. b;
  decode = λ b. some b;
  marshal = marshal;
  unmarshal = unmarshal;
  unseal-seal = unseal-seal;
  length-seal = λ key nonce text. length-append text tag;
  decode-encode = λ b. refl;
  unmarshal-marshal = λ m b t e. unmarshal-marshal m b e;
}

-- ===== src/Message/Generators/Tests.antt =====
-- A random source that repeats itself, and what is generated with it.
use webwire_go.Base.{ℕ, ◌+◌, ◌%◌, ◌≡◌, refl, [], ◌∷◌, arith}
use webwire_go.Message.{zero_message}
use webwire_go.Message.Generators.{Generated, gen_rnd_byte_string}
use webwire_go.Message.Generators.Bounds.{IsRandom, IsDrawn}
use webwire_go.Message.Generators.Composed.{request, rnd_msg, composed, generated-composed}
use webwire_go.Message.Parse.{parse}
use webwire_go.Message.RoundTrip.{received}
use webwire_go.Payload.{utf16}
use webwire_go.Runtime.{Bytes, value}

abbrev intn : ℕ → ℕ → ℕ
intn k n = (k + 1) % n

intn-IsRandom : IsRandom intn
intn-IsRandom = record { below = λ k n h. grind arith }

abbrev id : Bytes
id = 1 ∷ 2 ∷ 3 ∷ 4 ∷ 5 ∷ 6 ∷ 7 ∷ 8 ∷ []

-- Three letters are drawn, and one more makes the length even.
rounded : gen_rnd_byte_string intn 2 6 2 0 ≡ value (34 ∷ 35 ∷ 36 ∷ 37 ∷ [], 5)
unfolding gen_rnd_byte_string
rounded = refl

generated-composed_example :
    (g : Generated) × (rnd_msg intn (request utf16) 2 6 id 0 ≡ value g)
    × IsDrawn 2 6 2 g.payload.bytes
    × (composed (request utf16) g ≡ value g.encoded)
    × (parse zero_message g.encoded
        ≡ value (received 129 g.identifier g.name utf16 g.payload.bytes))
generated-composed_example =
    generated-composed intn (request utf16) 2 6 0 id intn-IsRandom refl (omega arith) (omega arith)
      refl refl

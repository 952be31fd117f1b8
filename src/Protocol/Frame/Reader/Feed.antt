-- ===== src/Protocol/Frame/Reader/Feed.antt =====
-- `FrameReader::feed` of crates/yams-protocol/src/frame.rs against the description without state.
use mathlib.Core.List.{append_assoc}
use yams.Prelude.{
  ℕ, ◌-◌, ◌≤◌, ◌<◌, ◌≡◌, refl, sym, ap, ◌∙◌, ◌≢◌, inl, inr, Bool, Option, none, some, [], ◌∷◌, ◌++◌,
  arith, ltb, length, take, drop, length-append, length-take, take-append-drop, Result, ok, err,
  Bool-cases,
}
use yams.Protocol.Errors.{ProtocolError}
use yams.Protocol.Frame.{
  Bytes, FrameReader, frame, feed, feed_body, declare_frame, feed_header, feed_partial,
  feed_declared, copy_at, from_be_bytes,
}
use yams.Protocol.Frame.Reader.{
  received, received_under, Declares, IsWellFormed, classify, copy_at_end, take-copy_at,
  length-copy_at, classify_short, classify-settle,
}

-- An error leaves the reader as it was, and otherwise the input is taken in.
abbrev pub Commits : FrameReader → Bytes → FrameReader → Result ProtocolError Bool → Type 0
Commits r input next (ok done) = received next ≡ received r ++ input
Commits r input next (err e) = next ≡ r

-- The answer and the new state of one `feed`, as the bytes so far decide them.
pub record Feeds (r : FrameReader) (input : Bytes) (out : FrameReader × Result ProtocolError Bool)
    : Type 0 where
  pub answer : out.1 ≡ classify r.limit (received r ++ input)
  pub keeps : IsWellFormed out.0
  pub same_limit : out.0.limit ≡ r.limit
  pub commits : Commits r input out.0 out.1

pub received-undeclared :
    (r : FrameReader) → r.declared ≡ none → received r ≡ take r.header_len r.header
unfolding received
received-undeclared r e = rw (e, received_under)

pub received-declared :
    (r : FrameReader) (d : ℕ) → r.declared ≡ some d → received r ≡ r.header ++ r.body
unfolding received
received-declared r d e = rw (e, received_under)

pub undeclared_facts :
    {r : FrameReader} → IsWellFormed r → r.declared ≡ none → (r.header_len < 4) × (r.body ≡ [])
undeclared_facts {r} w e = rw e at w.declares

pub declared_facts :
    {r : FrameReader} (d : ℕ) → IsWellFormed r → r.declared ≡ some d → Declares (some d) r
declared_facts {r} d w e = rw e at w.declares

feed_partial-Feeds :
    (r : FrameReader) (input : Bytes)
    → IsWellFormed r
    → r.declared ≡ none
    → length input < 4 - r.header_len
    → Feeds r input (feed_partial r input)
unfolding feed_partial classify
feed_partial-Feeds r input w undeclared short =
    let facts = undeclared_facts w undeclared in
    let size = w.header_size in
    let taken : received (feed_partial r input).0 ≡ received r ++ input =
      received-undeclared (feed_partial r input).0 undeclared
      ∙ take-copy_at r.header r.header_len input (omega arith)
      ∙ ap (λ (b : Bytes). b ++ input) (sym (received-undeclared r undeclared)) in
    record {
      answer = sym (
          classify_short r.limit _ (
            omega (
              arith,
              ap length taken,
              length-append (received r) input,
              length-take r.header_len r.header,
              ap length (received-undeclared r undeclared),
            )));
      keeps = record {
        header_size = length-copy_at r.header r.header_len input (omega arith) ∙ size;
        declares = rw undeclared (omega arith, facts.1);
      };
      same_limit = refl;
      commits = taken;
    }

-- A refusal commits nothing.
refuses-Feeds :
    (r : FrameReader) (input : Bytes) (e : ProtocolError)
    → IsWellFormed r
    → classify r.limit (received r ++ input) ≡ err e
    → Feeds r input (r, err e)
refuses-Feeds r input e w h = record {
  answer = sym h;
  keeps = w;
  same_limit = refl;
  commits = refl;
}

declare_frame-Feeds :
    (r : FrameReader) (input complete rest : Bytes)
    → r.body ≡ []
    → IsWellFormed r
    → length complete ≡ 4
    → received r ++ input ≡ complete ++ rest
    → Feeds r input (declare_frame r complete rest)
unfolding declare_frame
declare_frame-Feeds r input complete rest empty w size splits =
    let grown : r.body ++ rest ≡ rest = ap (λ (b : Bytes). b ++ rest) empty in
    let answer = ap (classify r.limit) splits ∙ classify-settle r.limit complete rest size in
    elim (Bool-cases (ltb r.limit (from_be_bytes complete))) [
      | inl large ↦ rw (large, declare_frame) (refuses-Feeds r input _ w (answer ∙ ground arith))
      | inr fits ↦ elim (Bool-cases (ltb (from_be_bytes complete) (length rest))) [
        | inl long ↦
            rw (fits, long, declare_frame) (refuses-Feeds r input _ w (answer ∙ ground arith))
        | inr within ↦
            rw (fits, within, declare_frame)
              (rw grown (record {
                answer = sym (answer ∙ ground arith);
                keeps = record {
                  header_size = size;
                  declares = (refl, ground arith, ground arith, refl);
                };
                same_limit = refl;
                commits = received-declared _ (from_be_bytes complete) refl ∙ sym splits;
              }))
      ]
    ]

feed_header-Feeds :
    (r : FrameReader) (input : Bytes)
    → IsWellFormed r
    → r.declared ≡ none
    → 4 - r.header_len ≤ length input
    → Feeds r input (feed_header r input)
unfolding feed_header
feed_header-Feeds r input w undeclared enough =
    let facts = undeclared_facts w undeclared in
    let needed = 4 - r.header_len in
    let size = w.header_size in
    let filled : length (take needed input) ≡ needed = omega (arith, length-take needed input) in
    let complete : copy_at r.header r.header_len (take needed input)
        ≡ take r.header_len r.header ++ take needed input =
      copy_at_end r.header r.header_len (take needed input) (omega arith) in
    declare_frame-Feeds r input _ (drop needed input) facts.1 w
      (length-copy_at r.header r.header_len (take needed input) (omega arith) ∙ size)
      (rw (received-undeclared r undeclared, complete, append_assoc, take-append-drop))

feed_body-Feeds :
    (r : FrameReader) (declared : ℕ) (input : Bytes)
    → IsWellFormed r
    → r.declared ≡ some declared
    → Feeds r input (feed_body r declared input)
unfolding feed_body
feed_body-Feeds r declared input w e =
    let facts = declared_facts declared w e in
    let splits : received r ++ input ≡ r.header ++ (r.body ++ input) =
      rw (received-declared r declared e, append_assoc) in
    let answer =
      ap (classify r.limit) splits
      ∙ classify-settle r.limit r.header (r.body ++ input) w.header_size in
    let grown = length-append r.body input in
    elim (Bool-cases (ltb (declared - length r.body) (length input))) [
      | inl long ↦
          rw (long, feed_body) (refuses-Feeds r input _ w (answer ∙ rw facts.3 (ground arith)))
      | inr within ↦
          rw (within, feed_body)
            (record {
              answer = sym (answer ∙ rw facts.3 (ground arith));
              keeps = record {
                header_size = w.header_size;
                declares = rw e (facts.0, facts.1, ground arith, facts.3);
              };
              same_limit = refl;
              commits = received-declared _ declared e ∙ sym splits;
            })
    ]

feed_declared-Feeds :
    (r : FrameReader) (input : Bytes) (o : Option ℕ)
    → IsWellFormed r
    → r.declared ≡ o
    → Feeds r input (feed_declared o r input)
unfolding feed_declared
feed_declared-Feeds r input (some d) w e = feed_body-Feeds r d input w e
feed_declared-Feeds r input none w e = elim (Bool-cases (ltb (length input) (4 - r.header_len))) [
  | inl short ↦ rw (short, feed_declared) (feed_partial-Feeds r input w e (ground arith))
  | inr enough ↦ rw (enough, feed_declared) (feed_header-Feeds r input w e (ground arith))
]

-- A reader that is still incomplete answers nonempty input exactly as `classify` answers all bytes
-- received so far and the input together. An error leaves the reader as it was; otherwise the
-- input is appended to what was received, and the reader stays well-formed, with its limit.
pub feed-Feeds :
    (r : FrameReader) (input : Bytes)
    → IsWellFormed r
    → frame r ≡ none
    → input ≢ []
    → Feeds r input (feed r input)
unfolding feed
feed-Feeds r [] w open' given = absurd (given refl)
feed-Feeds r (b ∷ bs) w open' given =
    rw (open', feed) (feed_declared-Feeds r (b ∷ bs) r.declared w refl)

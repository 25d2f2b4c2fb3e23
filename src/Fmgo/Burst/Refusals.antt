-- ===== src/Fmgo/Burst/Refusals.antt =====
-- The responses that a burst reads (tools/ncm_burst.py).
use firmingo.Common.{
  ℕ, ◌≡◌, refl, sym, ap, subst, ◌∙◌, Bool, true, false, ◌&&◌, Option, none, some, List, [], ◌∷◌,
  ◌++◌, ok, check-ok, ok-inj, map_err-eq-ok, length, take-append-drop, length-take, ◌==◌, arith,
}
use firmingo.Common.Bytes.{Bytes}
use firmingo.Common.Run.Returned.{Ends, Ends-pure, Ends-lift, Ends-bind, Ends-known}
use firmingo.Python.{Value, Fields, lookup, as_dict, equals_str}
use firmingo.Fmgo.Frame.{Header, header_size, decode_header}
use firmingo.Fmgo.Stream.{exact}
use firmingo.Fmgo.Stream.Exact.{arriving, exact_iff}
use firmingo.Fmgo.Request.{in_frame, in_read, unexpected_response, Link, read_exact, is_ok}
use firmingo.Fmgo.Burst.{dict_of, code_of, value_of_json, read_refusal, read_refusals}

-- Only the arriving bytes change.
pub record Kept (before after : Link) : Type 0 where
  pub numbered : after.next_request ≡ before.next_request
  pub wire_is : after.wire ≡ before.wire

Kept-trans : (a b c : Link) → Kept a b → Kept b c → Kept a c
Kept-trans a b c first second = record {
  numbered = second.numbered ∙ first.numbered;
  wire_is = second.wire_is ∙ first.wire_is;
}

-- The bytes that a read takes.
record Reads (bytes : Bytes) (deadline : ℕ) (before after : Link) : Type 0 where
  pub kept : Kept before after
  pub split : arriving deadline before.turns ≡ bytes ++ arriving deadline after.turns

read_exact-Reads :
    (deadline count : ℕ) (link : Link) (bytes : Bytes)
    → (read_exact deadline count link).0 ≡ ok bytes
    → Reads bytes deadline link (read_exact deadline count link).1 × (length bytes ≡ count)
unfolding read_exact
read_exact-Reads deadline count link bytes h =
    let coming = arriving deadline link.turns in
    let result = (exact deadline count link.turns).0 in
    let (enough, same, left) =
      (exact_iff deadline count link.turns bytes).0 (map_err-eq-ok in_read result h) in
    (
      record {
        kept = record { numbered = refl; wire_is = refl };
        split = sym (rw (same, left) (take-append-drop count coming));
      },
      ap length same ∙ omega (arith, length-take count coming, enough),
    )

-- A body that decodes to a dictionary which refuses the request for its arguments.
pub record IsRefusal (loads : Bytes → Option Value) (body : Bytes) : Type 0 where
  pub value : Value
  pub response : Fields
  pub code : Option Value
  pub decoded : loads body ≡ some value
  pub is_dict : as_dict value ≡ some response
  pub failed : is_ok false (lookup "ok" response) ≡ true
  pub code_is : code_of (some response) ≡ ok code
  pub invalid : equals_str code "invalid_argument" ≡ true

module _ (loads : Bytes → Option Value) where
  -- A response with this number comes first: a frame whose header is accepted, and a refusal as its body.
  pub record Refuses (request : ℕ) (before after : Bytes) : Type 0 where
    pub head : Bytes
    pub body : Bytes
    pub split : before ≡ head ++ (body ++ after)
    pub header_is :
        decode_header head ≡ ok (record { kind = 2; request = request; size = length body })
    pub refusal : IsRefusal loads body

  -- The responses with these numbers come first, in this order.
  abbrev pub Refusals : List ℕ → Bytes → Bytes → Type 0
  Refusals [] before after = before ≡ after
  Refusals (request ∷ requests) before after =
      (middle : Bytes) × Refuses request before middle × Refusals requests middle after

pub Refusals-subst :
    (loads : Bytes → Option Value) (after : Bytes) {ns ms : List ℕ} {before first : Bytes}
    → Refusals loads ns before after
    → ns ≡ ms
    → before ≡ first
    → Refusals loads ms first after
Refusals-subst loads after {ns} {ms} {before} {first} h numbered start =
    subst (λ bs. Refusals loads ms bs after) start
      (subst (λ rs. Refusals loads rs before after) numbered h)

value_of_json-ok :
    (decoded : Option Value) {v : Value} → value_of_json decoded ≡ ok v → decoded ≡ some v
value_of_json-ok none h = cc
value_of_json-ok (some u) h = ap some (ok-inj h)

dict_of-ok : (d : Option Fields) {fields : Fields} → dict_of d ≡ ok fields → d ≡ some fields
dict_of-ok none h = cc
dict_of-ok (some e) h = ap some (ok-inj h)

both : (a b : Bool) → a && b ≡ true → (a ≡ true) × (b ≡ true)
both true b h = (refl, h)
both false b h = cc

header_eq :
    (header : Header) (request size : ℕ)
    → header.kind == 2 && header.request == request ≡ true
    → size ≡ header.size
    → header ≡ record { kind = 2; request = request; size = size }
header_eq header request size h same =
    let kind_is : header.kind ≡ 2 = ground (arith, h) in
    let request_is : header.request ≡ request = ground (arith, h) in
    rw (kind_is, request_is, same) refl

module _ (loads : Bytes → Option Value) (deadline : ℕ) where
  read_refusal-Refuses :
      (request : ℕ) (link : Link)
      → Ends
          (λ _ after.
            Kept link after
            × Refuses loads request (arriving deadline link.turns) (arriving deadline after.turns))
          (read_refusal loads deadline request)
          link
  unfolding read_refusal
  read_refusal-Refuses request link = Ends-bind _ _ _ link (λ head h₁.
      let (read₁, _) = read_exact-Reads deadline header_size link head h₁ in
      Ends-known _ _ _ _ (λ header h₂. Ends-bind _ _ _ _ (λ body h₃.
        let (read₂, sized) = read_exact-Reads deadline header.size _ body h₃ in
        Ends-known _ _ _ _ (λ value h₄. Ends-known _ _ _ _ (λ code h₅. Ends-known _ _ _ _ (λ _ h₆.
          Ends-known _ _ _ _ (λ response h₇. Ends-lift _ _ _ (λ _ h₈.
            let (failed, invalid) =
              both (is_ok false (lookup "ok" response)) (equals_str code "invalid_argument")
                (check-ok _ unexpected_response h₈) in
            let is_dict = dict_of-ok (as_dict value) h₇ in
            (
              Kept-trans _ _ _ read₁.kept read₂.kept,
              record {
                head = head;
                body = body;
                split = read₁.split ∙ ap (λ bs. head ++ bs) read₂.split;
                header_is =
                    map_err-eq-ok in_frame (decode_header head) h₂
                    ∙ ap ok (
                        header_eq header request (length body) (check-ok _ unexpected_response h₆)
                          sized);
                refusal = record {
                  value = value;
                  response = response;
                  code = code;
                  decoded = value_of_json-ok (loads body) h₄;
                  is_dict = is_dict;
                  failed = failed;
                  code_is = sym (ap code_of is_dict) ∙ h₅;
                  invalid = invalid;
                };
              },
            )))))))))

  pub read_refusals-Refusals :
      (requests : List ℕ) (link : Link)
      → Ends
          (λ responses after.
            (responses ≡ requests)
            × Kept link after
            × Refusals loads requests
                (arriving deadline link.turns)
                (arriving deadline after.turns))
          (read_refusals loads deadline requests)
          link
  unfolding read_refusals
  read_refusals-Refusals [] link =
      Ends-pure _ _ link (refl, record { numbered = refl; wire_is = refl }, refl)
  read_refusals-Refusals (request ∷ requests) link = Ends-bind _ _ _ link (λ u h₁.
      let (kept, refused) = (read_refusal-Refuses request link).at u h₁ in
      Ends-bind _ _ _ _ (λ responses h₂.
        let (same, kept', refused') = (read_refusals-Refusals requests _).at responses h₂ in
        Ends-pure _ _ _
          (ap (λ rs. request ∷ rs) same, Kept-trans _ _ _ kept kept', (_, refused, refused'))))

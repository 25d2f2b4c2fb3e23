-- ===== src/Uart/Matrix/BoardRefused.antt =====
-- What the board answered to the invalid configurations of the format matrix (tools/uart_format_matrix.py).
use firmingo.Common.{ℕ, ◌≡◌, refl, ap, ◌∙◌, List, [], ◌∷◌, ◌++◌, map, All, length}
use firmingo.Common.Bytes.{Bytes}
use firmingo.Python.{Fields}
use firmingo.Uart.Rig.{Config, uart_config, Answer, success, failure, refused, Comparison}
use firmingo.Uart.Rig.Taken.{
  Takes, Takes-pure, Takes-bind, Takes-weaken, Takes-skip, Starts, Starts-bind, Starts-skip,
  Starts-whole, Starts-first, Quiet, Quiet-lift, Quiet-skip, documents_of, Quiet-read_line,
  Quiet-write, Quiet-connect, Quiet-command, Takes-ask, IsDenial, Takes-deny,
}
use firmingo.Uart.Smoke.{identify}
use firmingo.Uart.Matrix.{
  PeerConfig, peer_configuration, observe_nano_configuration, observe_effective, peer_invalid,
  reject_commands, check_peer_invalid_configurations, nano_invalid, reject_configurations,
  open_case, check_nano_invalid_configurations, run,
}
use firmingo.Uart.Matrix.PeerRefused.{Quiet-parse}
use Prim.Native.Nat.{suc}
use Prim.Native.String.{String}

-- The board refuses as many requests as there are configurations.
pub record BoardRefuses (configs : List Config) (xs : List Answer) : Type 0 where
  pub errors : List Fields
  pub each : length errors ≡ length configs
  pub answers : xs ≡ map failure errors
  pub denials : All (IsDenial "invalid_argument") errors

Quiet-refused : (text error : Bytes) → Quiet documents_of (refused text error)
unfolding refused
Quiet-refused text error =
    Quiet-skip documents_of _ _ (Quiet-write _)
      (λ _. Quiet-skip documents_of _ _ Quiet-read_line (λ _. Quiet-lift documents_of _))

Quiet-peer_configuration : (text : Bytes) → Quiet documents_of (peer_configuration text)
unfolding peer_configuration
Quiet-peer_configuration text =
    Quiet-skip documents_of _ _ (Quiet-command _) (λ _. Quiet-parse documents_of _)

Quiet-reject_commands :
    (before : PeerConfig) (texts : List Bytes) → Quiet documents_of (reject_commands before texts)
unfolding reject_commands
Quiet-reject_commands before [] = Takes-pure documents_of _ tt refl
Quiet-reject_commands before (text ∷ texts) = Quiet-skip documents_of _ _ (Quiet-refused _ _) (λ _.
    Quiet-skip documents_of _ _ (Quiet-peer_configuration _) (λ _.
      Quiet-skip documents_of _ _ (Quiet-lift documents_of _)
        (λ _. Quiet-reject_commands before texts)))

Quiet-check_peer : Quiet documents_of check_peer_invalid_configurations
unfolding check_peer_invalid_configurations
Quiet-check_peer =
    Quiet-skip documents_of _ _ (Quiet-peer_configuration _)
      (λ before. Quiet-reject_commands before peer_invalid)

Quiet-identify : Quiet documents_of identify
unfolding identify
Quiet-identify = Quiet-skip documents_of _ _ (Quiet-command _) (λ line.
    Quiet-skip documents_of _ _ (Quiet-lift documents_of _)
      (λ _. Takes-pure documents_of _ line refl))

Quiet-observe_effective :
    (boot_id : String) (c : Config) (actual_baud : ℕ)
    → Quiet documents_of (observe_effective boot_id c actual_baud)
unfolding observe_effective observe_nano_configuration
Quiet-observe_effective boot_id c actual_baud =
    Quiet-skip documents_of _ _
      (Quiet-skip documents_of _ _ (Quiet-connect _) (λ hello.
        Quiet-skip documents_of _ _ (Quiet-lift documents_of _) (λ _.
          Quiet-skip documents_of _ _ (Quiet-lift documents_of _) (λ _.
            Quiet-skip documents_of _ _ (Quiet-lift documents_of _) (λ result.
              Quiet-skip documents_of _ _ (Quiet-write _)
                (λ _. Takes-pure documents_of _ result refl))))))
      (λ _. Quiet-lift documents_of _)

Takes-open_case :
    (boot_id : String) (c : Config) (actual_baud : ℕ)
    → Takes documents_of
        (λ u xs. (opened : Fields) × (xs ≡ success opened ∷ []))
        (open_case boot_id c actual_baud)
unfolding open_case
Takes-open_case boot_id c actual_baud = Takes-skip documents_of _ _ (Quiet-connect _) _ (λ hello.
    Takes-skip documents_of _ _ (Quiet-lift documents_of _) _ (λ _.
      Takes-skip documents_of _ _ (Quiet-lift documents_of _) _ (λ _.
        Takes-bind documents_of _ _ _ (Takes-ask _ _) _ (λ opened xs one.
          Takes-weaken documents_of _ _ _ (Quiet-observe_effective _ _ _) (λ _ ys none_taken.
            (opened, ap (λ zs. zs ++ ys) one ∙ ap (λ zs. success opened ∷ zs) none_taken))))))

BoardRefuses-cons :
    (c : Config) (configs : List Config) (d : Fields) (xs ys : List Answer)
    → xs ≡ failure d ∷ []
    → IsDenial "invalid_argument" d
    → BoardRefuses configs ys
    → BoardRefuses (c ∷ configs) (xs ++ ys)
BoardRefuses-cons c configs d xs ys h denied r = record {
  errors = d ∷ r.errors;
  each = ap suc r.each;
  answers = ap (λ l. l ++ ys) h ∙ ap (λ l. failure d ∷ l) r.answers;
  denials = (denied, r.denials);
}

Takes-reject_configurations :
    (boot_id : String) (requested : Config) (actual_baud : ℕ) (configs : List Config)
    → Takes documents_of
        (λ u xs. BoardRefuses configs xs)
        (reject_configurations boot_id requested actual_baud configs)
unfolding reject_configurations
Takes-reject_configurations boot_id requested actual_baud [] =
    Takes-pure documents_of _ tt (record { errors = []; each = refl; answers = refl; denials = tt })
Takes-reject_configurations boot_id requested actual_baud (c ∷ configs) =
    Takes-bind documents_of _ _ _ (Takes-deny _ _ _) _ (λ d xs (one, denied).
      Takes-skip documents_of _ _ (Quiet-observe_effective _ _ _) _ (λ _.
        Takes-weaken documents_of _ _ _
          (Takes-reject_configurations boot_id requested actual_baud configs)
          (λ _ ys r. BoardRefuses-cons c configs d xs ys one denied r)))

-- The documents of the board: its diagnostics, the open channel, and the errors.
pub record BoardAnswers (xs : List Answer) : Type 0 where
  pub diagnostics : Fields
  pub opened : Fields
  pub rest : List Answer
  pub split : xs ≡ success diagnostics ∷ success opened ∷ rest
  pub refuses : BoardRefuses (nano_invalid (uart_config 115200 8 "none" 1)) rest

module _ (py : Comparison) where
  Starts-check_nano :
      (boot_id : String) (baseline : Fields)
      → Starts documents_of
          (λ xs.
            (opened : Fields) × (rest : List Answer) × (xs ≡ success opened ∷ rest)
            × BoardRefuses (nano_invalid (uart_config 115200 8 "none" 1)) rest)
          (check_nano_invalid_configurations py boot_id baseline)
  unfolding check_nano_invalid_configurations
  Starts-check_nano boot_id baseline =
      Starts-skip documents_of _ _ (Quiet-peer_configuration _) _ (λ peer.
        Starts-bind documents_of _ _ _ (Takes-open_case _ _ _) _ (λ _ xs (opened, one).
          Starts-skip documents_of _ _ (Quiet-command _) _ (λ _. Starts-whole documents_of _ _ _ (
            Takes-weaken documents_of _ _ _ (Takes-reject_configurations _ _ _ _)
              (λ _ ys r. (opened, ys, ap (λ zs. zs ++ ys) one, r))))))

  pub Starts-run :
      (boundary_bytes format_bytes high_speed_bytes seed : ℕ)
      → Starts documents_of BoardAnswers (run py boundary_bytes format_bytes high_speed_bytes seed)
  unfolding run
  Starts-run boundary_bytes format_bytes high_speed_bytes seed =
      Starts-skip documents_of _ _ Quiet-identify _ (λ _.
        Starts-skip documents_of _ _ Quiet-check_peer _ (λ _.
          Starts-skip documents_of _ _ (Quiet-connect _) _ (λ hello.
            Starts-skip documents_of _ _ (Quiet-lift documents_of _) _ (λ _.
              Starts-bind documents_of _ _ _ (Takes-ask _ _) _ (λ diagnostics xs one.
                Starts-skip documents_of _ _ (Quiet-write _) _ (λ _.
                  Starts-first documents_of _ _ _ _ (Starts-check_nano _ _)
                    (λ ys (opened, rest, two, r). record {
                      diagnostics = diagnostics;
                      opened = opened;
                      rest = rest;
                      split = ap (λ zs. zs ++ ys) one ∙ ap (λ zs. success diagnostics ∷ zs) two;
                      refuses = r;
                    })))))))

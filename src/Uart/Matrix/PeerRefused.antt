-- ===== src/Uart/Matrix/PeerRefused.antt =====
-- What the test peer answered to the invalid configurations of the format matrix (tools/uart_format_matrix.py).
use firmingo.Common.{ℕ, ◌≡◌, refl, ap, ◌∙◌, List, [], ◌∷◌, ◌++◌, map, join, length}
use firmingo.Common.Bytes.{Bytes, bytes_eq_iff, ascii}
use firmingo.Common.{check-ok}
use firmingo.Uart.Rig.{Reply, not_refused, World, refused, Comparison}
use firmingo.Uart.Rig.Taken.{
  Takes, Takes-pure, Takes-bind, Takes-weaken, Takes-skip, Starts, Starts-bind, Starts-whole, Quiet,
  Quiet-lift, Quiet-skip, lines_of, Takes-read_line, Quiet-write-lines, Takes-command,
}
use firmingo.Uart.Smoke.{identify}
use firmingo.Uart.Matrix.{
  PeerConfig, parse_peer_configuration, peer_configuration, peer_invalid, reject_commands,
  check_peer_invalid_configurations, run,
}
use Prim.Native.Nat.{suc}

-- The peer refuses as many commands as there are texts, and says its status behind each.
pub record PeerRefuses (texts xs : List Bytes) : Type 0 where
  pub statuses : List Bytes
  pub each : length statuses ≡ length texts
  pub answers : xs ≡ join (map (λ s. ascii "ERR invalid_config" ∷ s ∷ []) statuses)

Takes-refused :
    (text error : Bytes)
    → Takes lines_of (λ u xs. xs ≡ (ascii "ERR " ++ error) ∷ []) (refused text error)
unfolding refused
Takes-refused text error = Takes-skip lines_of _ _ (Quiet-write-lines _) _ (λ _.
    Takes-bind lines_of _ _ _ Takes-read_line _ (λ line xs one. record {
      at = λ w u h. (
        [],
        refl,
        ap (λ zs. zs ++ []) one
            ∙ ap (λ l. l ∷ [])
                ((bytes_eq_iff line (ascii "ERR " ++ error)).0 (check-ok _ not_refused h)),
      );
    }))

module _ {X : Type 0} (of : World → List (Reply X)) where
  pub Quiet-parse : (line : Bytes) → Quiet of (parse_peer_configuration line)
  unfolding parse_peer_configuration
  Quiet-parse line = Quiet-skip of _ _ (Quiet-lift of _) (λ _.
      Quiet-skip of _ _ (Quiet-lift of _) (λ _. Quiet-skip of _ _ (Quiet-lift of _) (λ _.
        Quiet-skip of _ _ (Quiet-lift of _) (λ _.
          Quiet-skip of _ _ (Quiet-lift of _)
            (λ _. Quiet-skip of _ _ (Quiet-lift of _) (λ _. Takes-pure of _ _ refl))))))

Takes-peer_configuration :
    (text : Bytes)
    → Takes lines_of (λ c xs. (line : Bytes) × (xs ≡ line ∷ [])) (peer_configuration text)
unfolding peer_configuration
Takes-peer_configuration text = Takes-bind lines_of _ _ _ (Takes-command text) _ (λ line xs one.
    Takes-weaken lines_of _ _ _ (Quiet-parse lines_of line)
      (λ c ys none_taken. (line, ap (λ zs. zs ++ ys) one ∙ ap (λ zs. line ∷ zs) none_taken)))

PeerRefuses-cons :
    (text status : Bytes) (texts xs ys zs : List Bytes)
    → xs ≡ (ascii "ERR " ++ ascii "invalid_config") ∷ []
    → ys ≡ status ∷ []
    → PeerRefuses texts zs
    → PeerRefuses (text ∷ texts) (xs ++ (ys ++ zs))
PeerRefuses-cons text status texts xs ys zs h k r = record {
  statuses = status ∷ r.statuses;
  each = ap suc r.each;
  answers =
      ap (λ l. l ++ (ys ++ zs)) h
      ∙ ap (λ l. ascii "ERR invalid_config" ∷ (l ++ zs)) k
      ∙ ap (λ l. ascii "ERR invalid_config" ∷ status ∷ l) r.answers;
}

Takes-reject_commands :
    (before : PeerConfig) (texts : List Bytes)
    → Takes lines_of (λ u xs. PeerRefuses texts xs) (reject_commands before texts)
unfolding reject_commands
Takes-reject_commands before [] =
    Takes-pure lines_of _ tt (record { statuses = []; each = refl; answers = refl })
Takes-reject_commands before (text ∷ texts) =
    Takes-bind lines_of _ _ _ (Takes-refused _ _) _ (λ _ xs refusal.
      Takes-bind lines_of _ _ _ (Takes-peer_configuration _) _ (λ after ys (status, one).
        Takes-skip lines_of _ _ (Quiet-lift lines_of _) _ (λ _.
          Takes-weaken lines_of _ _ _ (Takes-reject_commands before texts)
            (λ _ zs r. PeerRefuses-cons text status texts xs ys zs refusal one r))))

-- The lines of the peer: to `PING`, to the first `STATS`, and to the invalid commands.
pub record PeerAnswers (xs : List Bytes) : Type 0 where
  pub identity : Bytes
  pub status : Bytes
  pub rest : List Bytes
  pub split : xs ≡ identity ∷ status ∷ rest
  pub refuses : PeerRefuses peer_invalid rest

Takes-identify : Takes lines_of (λ line xs. xs ≡ line ∷ []) identify
unfolding identify
Takes-identify = Takes-bind lines_of _ _ _ (Takes-command _) _ (λ line xs one.
    Takes-skip lines_of _ _ (Quiet-lift lines_of _) _
      (λ _. Takes-pure lines_of _ line (ap (λ zs. zs ++ []) one)))

Takes-check_peer :
    Takes lines_of
      (λ u xs.
        (status : Bytes) × (rest : List Bytes) × (xs ≡ status ∷ rest)
        × PeerRefuses peer_invalid rest)
      check_peer_invalid_configurations
unfolding check_peer_invalid_configurations
Takes-check_peer =
    Takes-bind lines_of _ _ _ (Takes-peer_configuration _) _ (λ before xs (status, one).
      Takes-weaken lines_of _ _ _ (Takes-reject_commands before peer_invalid)
        (λ _ ys r. (status, ys, ap (λ zs. zs ++ ys) one, r)))

pub Starts-run :
    (py : Comparison) (boundary_bytes format_bytes high_speed_bytes seed : ℕ)
    → Starts lines_of PeerAnswers (run py boundary_bytes format_bytes high_speed_bytes seed)
unfolding run
Starts-run py boundary_bytes format_bytes high_speed_bytes seed =
    Starts-bind lines_of _ _ _ Takes-identify _ (λ line xs one. Starts-whole lines_of _ _ _ (
      Takes-weaken lines_of _ _ _ Takes-check_peer (λ _ ys (status, rest, split, r). record {
        identity = line;
        status = status;
        rest = rest;
        split = ap (λ zs. zs ++ ys) one ∙ ap (λ zs. line ∷ zs) split;
        refuses = r;
      })))

-- ===== src/Attach/Cycles.antt =====
-- A cycle that runs to its end has passed (tools/attach.py).
use firmingo.Common.{
  ℕ, suc, ◌+◌, ◌≡◌, inl, inr, refl, sym, ap, subst, ◌∙◌, Bool, true, not, Option, none, some, List,
  [], ◌∷◌, ◌++◌, ok, length, leb, length-append, arith,
}
use firmingo.Common.Run.{lift, ◌>>◌}
use firmingo.Common.Run.Triple.{Triple, Triple-bind}
use firmingo.Attach.{
  reply, waiting_for_plug, waiting_for_network, checking, functional_pass, Cycle, Report, Act,
  update, same_text, Observed, on_cycle, update_cycle, new_cycle, reattach, check_instance, qualify,
  pass_cycle, check_traffic, note_xid, run_cycle, run_cycles,
}
use Prim.Native.String.{String}
use firmingo.Attach.Track.{
  PassedFrom, PassedFrom-append, IsOpen, Between, Within, Broken, Moves, Moves-bind, Moves-lift,
  Moves-update, Moves-check_instance, Moves-qualify,
}

module _ (start : ℕ) where
  module _ (k : ℕ) where
    -- The stages of the current cycle.
    abbrev unplugging : Cycle
    unplugging = new_cycle (start + k)

    abbrev plugging : Cycle
    plugging = record unplugging { status = waiting_for_plug }

    abbrev networking : Cycle
    networking = record unplugging { status = waiting_for_network; observed = true }

    abbrev noted : Bool → Cycle
    noted changed = record networking { xid_changed = some changed }

    abbrev judged : Bool → Cycle
    judged changed = record (noted changed) { status = checking }

    Moves-reattach : (o : Observed) → Moves start k unplugging (reattach o) networking
    unfolding reattach
    Moves-reattach o =
        Moves-bind start k unplugging unplugging networking (lift (reply o.detached)) _
          (Moves-lift start k unplugging
            (record { numbered = refl; stage = inl refl; no_failure = refl }) _)
          (λ _.
            Moves-bind start k unplugging plugging networking
              (update_cycle (λ c. record c { status = waiting_for_plug })) _
              (Moves-update start k unplugging _)
              (λ _.
                Moves-bind start k plugging plugging networking (lift (reply o.arrived)) _
                  (Moves-lift start k plugging
                    (record { numbered = refl; stage = inr refl; no_failure = refl }) _)
                  (λ present.
                    Moves-bind start k plugging networking networking
                      (update_cycle
                        (λ c. record c { status = waiting_for_network; observed = true }))
                      _ (Moves-update start k plugging _)
                      (λ _.
                        Moves-lift start k networking
                          (record { numbered = refl; stage = inl refl; no_failure = refl })
                          (ok present)))))

    Moves-check_traffic :
        (changed : Bool) (o : Observed)
        → Moves start k (noted changed) (check_traffic o) (judged changed)
    unfolding check_traffic
    Moves-check_traffic changed o =
        let open' : IsOpen (start + k) (judged changed) = record {
          numbered = refl;
          stage = inr refl;
          no_failure = refl;
        } in
        Moves-bind start k (noted changed) (judged changed) (judged changed)
          (update_cycle (λ c. record c { status = checking })) _
          (Moves-update start k (noted changed) _)
          (λ _.
            Moves-bind start k (judged changed) (judged changed) (judged changed)
              (lift (reply o.traffic)) _ (Moves-lift start k (judged changed) open' _)
              (λ both. Moves-lift start k (judged changed) open' _))

    abbrev finishing : Option String → ℕ → Act (Unit {0})
    finishing xid registry_id = update (λ w. record w {
      passed = w.passed ++ pass_cycle w.current;
      current = none;
      registry_id = registry_id;
      dhcp_xid = xid;
    })

    -- The end of a cycle, which then passes.
    finishing-Between :
        (changed : Bool) (xid : Option String) (registry_id : ℕ)
        → Triple
            (Within start k (judged changed))
            (finishing xid registry_id)
            (λ (x : Unit {0}) w. Between start (suc k) w)
            (Broken start)
    finishing-Between changed xid registry_id = record {
      at = λ w h.
          let done : List Cycle = record (judged changed) { status = functional_pass } ∷ [] in
          let same : w.passed ++ done ≡ w.passed ++ pass_cycle w.current =
            ap (λ c. w.passed ++ pass_cycle c) (sym h.busy) in
          record {
            passed = subst (PassedFrom start) same (
                PassedFrom-append start w.passed _ h.passed (ap (λ n. start + n) (sym h.counted))
                  (refl, (refl, refl)));
            counted = ap length (sym same) ∙ length-append w.passed done ∙ omega (arith, h.counted);
            idle = refl;
          };
    }

    after_note :
        (changed : Bool) (xid : Option String) (registry_id : ℕ) (o : Observed)
        → Triple
            (Within start k (noted changed))
            (check_traffic o >> finishing xid registry_id)
            (λ (x : Unit {0}) w. Between start (suc k) w)
            (Broken start)
    after_note changed xid registry_id o =
        Triple-bind (Broken start) (Within start k (noted changed))
          (λ (x : Unit {0}) w. Within start k (judged changed) w)
          (λ (x : Unit {0}) w. Between start (suc k) w) (check_traffic o) _
          (Moves-check_traffic changed o) (λ _. finishing-Between changed xid registry_id)

    finish_cycle :
        (xid : Option String) (registry_id : ℕ) (o : Observed)
        → Triple
            (Within start k networking)
            (note_xid xid >> (check_traffic o >> finishing xid registry_id))
            (λ (x : Unit {0}) w. Between start (suc k) w)
            (Broken start)
    unfolding note_xid
    finish_cycle xid registry_id o =
        Triple-bind (Broken start) (Within start k networking)
          (λ (x : Unit {0}) w. (changed : Bool) × Within start k (noted changed) w)
          (λ (x : Unit {0}) w. Between start (suc k) w) (note_xid xid) _
          (record {
            at = λ w h.
                let changed = not (same_text xid w.dhcp_xid) in
                (
                  changed,
                  record {
                    passed = h.passed;
                    counted = h.counted;
                    busy = ap (on_cycle (λ c. record c { xid_changed = some changed })) h.busy;
                  },
                );
          })
          (λ _. record { at = λ w h. (after_note h.0 xid registry_id o).at w h.1 })

    run_cycle-Between :
        (interface : String) (ready_timeout : ℕ) (o : Observed)
        → Triple
            (Between start k)
            (run_cycle interface ready_timeout (start + k) o)
            (λ (x : Unit {0}) w. Between start (suc k) w)
            (Broken start)
    unfolding run_cycle
    run_cycle-Between interface ready_timeout o =
        let working : IsOpen (start + k) networking = record {
          numbered = refl;
          stage = inl refl;
          no_failure = refl;
        } in
        let end : Unit {0} → Report → Type 0 = (λ x w. Between start (suc k) w) in
        Triple-bind (Broken start) (Between start k)
          (λ (x : Unit {0}) w. Within start k unplugging w) end
          (update (λ w. record w { current = some (new_cycle (start + k)) })) _
          (record { at = λ w h. record { passed = h.passed; counted = h.counted; busy = refl } })
          (λ _.
            Triple-bind (Broken start) (Within start k unplugging)
              (λ (x : ℕ × ℕ) w. Within start k networking w) end (reattach o) _ (Moves-reattach o)
              (λ present.
                Triple-bind (Broken start) (Within start k networking)
                  (λ (x : Unit {0}) w. Within start k networking w) end (check_instance present.0) _
                  (Moves-check_instance start k networking working present.0)
                  (λ _.
                    Triple-bind (Broken start) (Within start k networking)
                      (λ (x : Option String) w. Within start k networking w) end
                      (qualify interface (λ t. leb (present.1 + ready_timeout) t) o) _
                      (Moves-qualify start k networking working interface
                        (λ t. leb (present.1 + ready_timeout) t) o)
                      (λ xid. finish_cycle xid present.0 o))))

  pub run_cycles-Between :
      (interface : String) (ready_timeout k number : ℕ) (observed : List Observed)
      → number ≡ start + k
      → Triple
          (Between start k)
          (run_cycles interface ready_timeout number observed)
          (λ (x : Unit {0}) w. Between start (k + length observed) w)
          (Broken start)
  unfolding run_cycles
  run_cycles-Between interface ready_timeout k number [] e = record {
    at = λ w h. subst (λ n. Between start n w) (omega arith) h;
  }
  run_cycles-Between interface ready_timeout k number (o ∷ observed) e =
      let end : Unit {0} → Report → Type 0 = (λ x w. Between start (k + suc (length observed)) w) in
      let shift : suc k + length observed ≡ k + suc (length observed) = omega arith in
      Triple-bind (Broken start) (Between start k) (λ (x : Unit {0}) w. Between start (suc k) w) end
        (run_cycle interface ready_timeout number o) _
        (subst
          (λ n.
            Triple (Between start k) (run_cycle interface ready_timeout n o)
              (λ (x : Unit {0}) w. Between start (suc k) w) (Broken start))
          (sym e) (run_cycle-Between k interface ready_timeout o))
        (λ _.
          subst
            (λ n.
              Triple (Between start (suc k))
                (run_cycles interface ready_timeout (suc number) observed)
                (λ (x : Unit {0}) w. Between start n w) (Broken start))
            shift
            (run_cycles-Between interface ready_timeout (suc k) (suc number) observed
              (omega arith)))

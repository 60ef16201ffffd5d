-- ===== src/Idempotency/Store/Tests.antt =====
-- The store on concrete calls, and the theorems at concrete inputs.
use chartly.Prelude.{
  ℕ, ◌≡◌, refl, true, false, ◌++◌, some, none, List, [], ◌∷◌, All, replicate, arith, Option,
}
use chartly.Prelude.Int.{pos}
use chartly.Text.{Text, lit, text_eq, is_space, trim_space, split}
use chartly.Text
use chartly.Text.Laws.{text_eq_refl}
use chartly.Dict.{lookup, insert}
use chartly.Idempotency.{Error, err_conflict, err_not_owner}
use chartly.Idempotency.Encode.{hex_encode}
use chartly.Idempotency.Keys.{
  is_name_byte, is_hex_byte, is_lower_hex, validate_key, validate_tenant, normalize_scope,
}
use chartly.Idempotency.Store.{
  complete, Options, Record, MemoryStore, new_memory_store, new_in_progress, is_expired, refused,
  begin_found, count_op, try_begin, is_in_progress, update_owned, completed, complete_key, get, Op,
  begins, completes, fails, gets, sweeps, perform, run, start,
}
use chartly.Idempotency.Store.Invariant.{Inv, new_memory_store-Inv}
use chartly.Idempotency.Store.Reachable.{run-new_memory_store-Inv}
use chartly.Idempotency.Store.View.{live}
use chartly.Idempotency.Store.Atomic.{perform_error}
use chartly.Idempotency.Store.Lease.{IsForeign}
use chartly.Idempotency.Store.Replay.{lease_is_exclusive, result_is_replayed}

abbrev zeros : List ℕ → List ℕ
zeros b = replicate 32 0

abbrev options : Options
options = record {
  max_entries = pos 0;
  max_result_bytes = pos 0;
  default_ttl = pos 0;
  prune_every = pos 2;
}

abbrev job_key : Text
job_key = lit "v1:acme:jobs:" ++ replicate 64 b'0'

abbrev other_key : Text
other_key = lit "v1:acme:jobs:" ++ replicate 64 b'1'

abbrev empty_store : MemoryStore
empty_store = new_memory_store options

job_key_valid : validate_key job_key ≡ none
unfolding validate_key trim_space is_space split text_eq validate_tenant normalize_scope
    Text.to_lower is_name_byte is_hex_byte is_lower_hex
job_key_valid = refl

accepts : refused none job_key ≡ none
unfolding refused
accepts = ground (arith, job_key_valid)

abbrev begun : MemoryStore
begun = (try_begin empty_store none job_key (pos 50) 100 (lit "me")).0

granted : (try_begin empty_store none job_key (pos 50) 100 (lit "me")).1.fresh ≡ true
unfolding try_begin new_memory_store count_op begin_found lookup
granted = ground (arith, accepts)

granted_record :
    (try_begin empty_store none job_key (pos 50) 100 (lit "me")).1.found
    ≡ new_in_progress job_key 100 50 (lit "me")
unfolding try_begin new_memory_store count_op begin_found lookup start
granted_record = ground (arith, accepts)

run-new_memory_store-Inv_example :
    Inv zeros
      (run zeros empty_store (begins none job_key (pos 50) 100 (lit "me") ∷ sweeps none 200 ∷ []))
run-new_memory_store-Inv_example =
    run-new_memory_store-Inv zeros options
      (begins none job_key (pos 50) 100 (lit "me") ∷ sweeps none 200 ∷ [])

begun-Inv : Inv zeros begun
unfolding run perform
begun-Inv =
    run-new_memory_store-Inv zeros options (begins none job_key (pos 50) 100 (lit "me") ∷ [])

-- Meanwhile another caller tries in vain, works on another key, and sweeps.
abbrev meanwhile : List Op
meanwhile =
    completes none job_key (lit "you") [] 110
    ∷ begins none job_key (pos 9) 120 (lit "you")
    ∷ begins none other_key (pos 9) 120 (lit "you")
    ∷ sweeps none 150
    ∷ []

meanwhile-IsForeign : All (IsForeign job_key (new_in_progress job_key 100 50 (lit "me"))) meanwhile
unfolding new_in_progress is_in_progress trim_space is_space text_eq
meanwhile-IsForeign = ((omega arith, refl), (omega arith, (omega arith, (omega arith, tt))))

lease_is_exclusive_example :
    let (s₂, b', e') = try_begin (run zeros begun meanwhile) none job_key (pos 9) 150 (lit "you") in
    (b'.fresh ≡ false)
    × (e' ≡ some err_conflict)
    × (b'.found ≡ (try_begin empty_store none job_key (pos 50) 100 (lit "me")).1.found)
    × ((try_begin empty_store none job_key (pos 50) 100 (lit "me")).1.found.owner_token ≡ lit "me")
lease_is_exclusive_example =
    lease_is_exclusive zeros empty_store job_key (pos 50) 100 (lit "me") meanwhile 150 (pos 9)
      (lit "you") (new_memory_store-Inv zeros options) granted
      (rw granted_record meanwhile-IsForeign) (omega arith)

stored : lookup job_key begun.m ≡ some (new_in_progress job_key 100 50 (lit "me"))
unfolding try_begin new_memory_store count_op begin_found lookup start insert
stored = ground (arith, accepts, text_eq_refl job_key)

perform_error_example :
    live (perform zeros begun (completes none job_key (lit "you") [] 110)).0 120 job_key
    ≡ live begun 120 job_key
perform_error_example =
    perform_error zeros 120 job_key begun (completes none job_key (lit "you") [] 110)
      {e = err_not_owner} (omega arith) begun-Inv
      (unfold perform complete_key update_owned is_expired new_in_progress is_in_progress trim_space
          is_space text_eq in
        ground (arith, accepts, stored))

limit : begun.opts.max_result_bytes ≡ 1048576
unfolding try_begin new_memory_store count_op begin_found lookup start
limit = ground (arith, accepts)

abbrev finished : MemoryStore × Record × Option Error
finished = complete_key zeros begun none job_key (lit "me") (1 ∷ 2 ∷ []) 120

finished_ok : finished.2 ≡ none
unfolding complete_key update_owned is_expired new_in_progress is_in_progress trim_space is_space
    text_eq
finished_ok = rw (accepts, complete_key) (ground (arith, stored, limit))

finished_record :
    finished.1 ≡ completed zeros 120 (1 ∷ 2 ∷ []) (new_in_progress job_key 100 50 (lit "me"))
unfolding complete_key update_owned is_expired new_in_progress is_in_progress trim_space is_space
    text_eq
finished_record = rw (accepts, complete_key) (ground (arith, stored, limit))

abbrev afterwards : List Op
afterwards =
    fails none job_key (lit "me") (lit "E") (lit "late") 130
    ∷ gets none job_key 140
    ∷ sweeps none 150
    ∷ []

result_is_replayed_example :
    let s₂ = run zeros finished.0 afterwards in
    let (s₃, b, x) = try_begin s₂ none job_key (pos 9) 150 (lit "you") in
    (b.found ≡ finished.1)
    × (b.fresh ≡ false)
    × (x ≡ none)
    × ((get s₂ none job_key 150).1 ≡ finished.1)
    × (finished.1.state ≡ complete)
    × (finished.1.result_bytes ≡ 1 ∷ 2 ∷ [])
    × (finished.1.result_hash ≡ hex_encode (zeros (1 ∷ 2 ∷ [])))
result_is_replayed_example =
    result_is_replayed zeros begun none job_key (lit "me") (1 ∷ 2 ∷ []) 120 afterwards 150 (pos 9)
      (lit "you") begun-Inv finished_ok (rw finished_record (unfold new_in_progress in omega arith))
      (rw finished_record (unfold new_in_progress in omega arith))

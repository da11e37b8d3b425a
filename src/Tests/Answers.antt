-- ===== src/Tests/Answers.antt =====
-- Runs of the planner and of `run_source` over parts in memory that answer.
use andnp_searchkernel.Prelude.{
  ℕ, suc, ◌+◌, ◌≡◌, refl, ap, ◌∙◌, length, inr, none, some, String, List, [], ◌∷◌, map, All, arith,
}
use andnp_searchkernel.Exec.{pure, modify, reads}
use andnp_searchkernel.Indexing.Receipts.{count_failed, Record}
use andnp_searchkernel.Indexing.Planner.{execute}
use andnp_searchkernel.Indexing.Placement.{IsSound}
use andnp_searchkernel.Indexing.Inputs.{storage_key}
use andnp_searchkernel.Indexing.Finished.{Answers, Returns-execute}
use andnp_searchkernel.Indexing.Answering.{Same, Serves}
use andnp_searchkernel.Indexing.Completed.{Streams, Runs-run_source}
use andnp_searchkernel.Indexing.Answered.{HasKey}
use andnp_searchkernel.Exec.Runs.{Runs, Returns}
use andnp_searchkernel.Indexing.Runner.{committed_result}
use andnp_searchkernel.Indexing.Coordinator.{run_source}
use andnp_searchkernel.Tests.Memory.{
  resumed, empty, stored, embedding, planner, input_of, store, note, committing, coordinator,
  options, notes,
}

-- The same vector for every text.
abbrev ones : List String → List (List ℕ)
ones texts = map (λ t. 1 ∷ []) texts

ones-IsSound :
    (texts : List String)
    → (length (ones texts) ≡ length texts) × All (IsSound embedding planner) (ones texts)
ones-IsSound [] = (refl, tt)
ones-IsSound (t ∷ texts) =
    let rest = ones-IsSound texts in (ap suc rest.0, ((omega arith, (refl, tt), inr refl), rest.1))

embedding-Answers : Answers embedding planner (Same stored)
unfolding pure modify
embedding-Answers = record {
  growth = record { stays = λ w. refl; joins = λ w w' w'' p q. q ∙ p };
  gets = λ hashes w. record { value = []; state = w; result = refl; holds = (refl, tt) };
  puts = λ vectors w. record { value = tt; state = w; result = refl; holds = (refl, tt) };
  encodes =
      λ texts w. record { value = _; state = w; result = refl; holds = (refl, ones-IsSound texts) };
  materializes =
      λ id vector item w. record { value = tt; state = _; result = refl; holds = (refl, tt) };
  reports = tt;
}

Returns-execute_example :
    Returns
      (Same stored)
      (execute embedding planner (input_of "b" ∷ input_of "a" ∷ []) 1)
      empty
      (λ p. (p.completed ≡ p.total) × (p.cache_hits + p.cache_misses ≡ p.total))
Returns-execute_example =
    Returns-execute embedding planner embedding-Answers (input_of "b" ∷ input_of "a" ∷ []) 1 empty
      (omega arith)

none_failed : (records : List Record) → count_failed (map committed_result records) ≡ 0
unfolding count_failed committed_result
none_failed [] = refl
none_failed (r ∷ records) = omega (arith, none_failed records)

coordinator-Serves : Serves stored coordinator options committing store
unfolding pure modify reads
coordinator-Serves = record {
  embeds = embedding-Answers;
  ingests = λ records c mode w. record {
    value = _;
    state = w;
    result = refl;
    holds = (refl, none_failed records);
  };
  reports = tt;
  loads = λ kind workspace w. record {
    value = w.cursor;
    state = w;
    result = refl;
    holds = (refl, refl);
  };
  saves = λ kind workspace c w. record {
    value = tt;
    state = record w { cursor = c };
    result = refl;
    holds = refl;
  };
}

notes-Streams : Streams stored notes (some "a") (note "b" ∷ note "c" ∷ [])
unfolding pure
notes-Streams = record {
  by_records = refl;
  streams = λ w e. record { value = _; state = w; result = refl; holds = (refl, refl) };
}

notes-HasKey : All (HasKey coordinator) (note "b" ∷ note "c" ∷ [])
unfolding storage_key
notes-HasKey = ((_, refl), ((_, refl), tt))

Runs-run_source_example :
    Runs
      (run_source coordinator options notes none none 2 (some store))
      resumed
      (λ r w. (w.cursor ≡ some "c") × (r.ingestion.checkpoint ≡ some "c"))
Runs-run_source_example =
    Runs-run_source stored coordinator options committing store notes 2 (note "b" ∷ []) (note "c")
      "c" resumed coordinator-Serves refl notes-Streams notes-HasKey refl (omega arith)

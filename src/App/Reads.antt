-- ===== src/App/Reads.antt =====
-- internal/app/service.go: what the service reads from its store.
use ai4se_coding_agent_harne.Prelude.{String, Option, List, Result, ok, err}
use ai4se_coding_agent_harne.Domain.{Run}
use ai4se_coding_agent_harne.Store
use ai4se_coding_agent_harne.Store.{StoreError}
use ai4se_coding_agent_harne.Store.Listing
use ai4se_coding_agent_harne.Store.Listing.{RunPage}
use ai4se_coding_agent_harne.App.{App}
use ai4se_coding_agent_harne.App.Recovery.{every_run}

abbrev runs_of : Result StoreError RunPage → Result StoreError (List Run)
runs_of (err e) = err e
runs_of (ok page) = ok page.runs

module _ {W : Type 0} where
  unfoldable get_run : Option String → String → App W → Result StoreError Run
  get_run ctx run_id a = Store.get_run a.store ctx run_id

  unfoldable list_runs : Option String → App W → Result StoreError (List Run)
  list_runs ctx a = runs_of (Listing.list_runs a.store ctx every_run)

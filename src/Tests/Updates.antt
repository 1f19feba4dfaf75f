-- ===== src/Tests/Updates.antt =====
-- A cluster update that its one agent finishes.
use rust4eska.Prelude.{
  ◌⊎◌, Text, In, Each, ◌≡◌, ◌↔◌, refl, text, text_eq, nat_eq, some, true, false,
}
use rust4eska.Backend.Memory.{memory}
use rust4eska.Models.{PeerInfo}
use rust4eska.Server.{AppState}
use rust4eska.Server.Update.{UpdateReport, update_report, update_trigger, status_of, all_updated}
use rust4eska.Server.Update.Done.{IsAgent, IsUpdated, update_report-pending}
use rust4eska.Tests.Sample.{state}

abbrev triggered : AppState memory
triggered = update_trigger memory state

abbrev report : UpdateReport
report = record {
  agent_vpn_ip = text "10.42.0.2";
  checksum = text "c0ffee";
  status = text "updated";
}

finished : (update_report memory (some (text "c0ffee")) report triggered).update_pending ≡ false
unfolding update_report update_trigger all_updated status_of
finished = refl

is_pending : triggered.update_pending ≡ true
unfolding update_trigger
is_pending = refl

update_report-pending_example :
    ((update_report memory (some (text "c0ffee")) report triggered).update_pending ≡ false) ↔ (
      (mc : Text) × (some (text "c0ffee") ≡ some mc)
      × ((e : Text × PeerInfo memory.Float) × In e triggered.peers × IsAgent e)
      × Each
          (λ e. ¬ IsAgent e ⊎ IsUpdated report triggered.agent_update_states mc e.1.ip)
          triggered.peers)
update_report-pending_example =
    update_report-pending memory report triggered (some (text "c0ffee")) is_pending

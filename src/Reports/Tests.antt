-- ===== src/Reports/Tests.antt =====
-- Concrete inputs for services/reports.
use full.Base.{[], ◌∷◌, String}
use full.Reports.Cheats.{CheatReport, World, report_cheat}
use full.Reports.Threshold.{Reported, report_cheat-Reported}

abbrev report : String → CheatReport
report match_id = record { reporter_id = 4; reported_id = 9; match_id = match_id }

abbrev accused : World
accused = record {
  conn = record { tables = report "m4" ∷ report "m3" ∷ report "m2" ∷ report "m1" ∷ []; fates = [] };
  cooldowns = [];
}

report_cheat-Reported_example :
    Reported
      (report "m5")
      accused
      (report_cheat (report "m5") accused).0
      (report_cheat (report "m5") accused).1
report_cheat-Reported_example = report_cheat-Reported (report "m5") accused

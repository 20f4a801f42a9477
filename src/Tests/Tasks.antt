-- ===== src/Tests/Tasks.antt =====
-- A run of the theorem on the admin requests that are handled at the same time: two of them read the
-- file before either writes it.
use vestirust.Prelude.{ℕ, some, refl, ap, ok, inl, inr, ◌==◌, if◌then◌else◌}
use vestirust.Configuration.{from_file}
use vestirust.Users.Accounts.{admin_from_request}
use vestirust.Server.Admin.{AdminRequest}
use vestirust.Server.Admin.Tasks.{
  Sent, Task, waiting, holding, System, moved, extracted, finished, at_start, Reach, extract,
  finish, start, later,
}
use vestirust.Server.Admin.Tasks.Log.{IsLog, AllSaved, moved-cases}
use vestirust.Server.Admin.Tasks.Serial.{AreSerial, Reach-AreSerial}
use vestirust.Tests.Storage.{World}
use vestirust.Tests.Services.{
  busy, busy-IsStorage, few, few-HasUniqueKeys, mail, files, adds_mail, adds_files,
}

-- The app and the dav are added, and nothing else is asked for.
abbrev sent : ℕ → Sent
sent i = record {
  cookie = some "ada";
  salt = "salt";
  request =
      if i == 0
      then AdminRequest.add_app (ok mail)
      else if i == 1
      then AdminRequest.add_dav (ok files)
      else AdminRequest.get_users;
}

abbrev tasks_read : ℕ → Task
tasks_read = moved (moved (λ i. waiting) 0 (holding few)) 1 (holding few)

abbrev both_read : System World
both_read = record (at_start (some "before")) { tasks = tasks_read }

reached_read : Reach busy "vestibule.yaml" sent (some "before") both_read
unfolding extracted from_file admin_from_request
reached_read = later (later start (extract 0 refl)) (extract 1 refl)

abbrev first_wrote : System World
first_wrote = finished busy "vestibule.yaml" sent 0 few both_read

abbrev both_wrote : System World
both_wrote = finished busy "vestibule.yaml" sent 1 few first_wrote

reached : Reach busy "vestibule.yaml" sent (some "before") both_wrote
reached = later (later reached_read (finish 0 few refl)) (finish 1 few refl)

none_failed : AllSaved both_wrote.tasks
none_failed j e = elim (moved-cases first_wrote.tasks 1 _ j _ e) [
  | inl h ↦ cc (ap (λ t. t.1) (adds_files first_wrote.world))
  | inr h ↦ elim (moved-cases tasks_read 0 _ j _ h) [
    | inl k ↦ cc (ap (λ t. t.1) (adds_mail both_read.world))
    | inr k ↦ elim (moved-cases (moved (λ i. waiting) 0 (holding few)) 1 _ j _ k) [
      | inl x ↦ cc
      | inr x ↦ elim (moved-cases (λ i. waiting) 0 _ j _ x) [ inl y ↦ cc | inr y ↦ cc ]
    ]
  ]
]

Reach-AreSerial_example :
    IsLog both_wrote × AreSerial busy-IsStorage "vestibule.yaml" sent few both_wrote
unfolding from_file
Reach-AreSerial_example =
    Reach-AreSerial busy-IsStorage "vestibule.yaml" sent few refl few-HasUniqueKeys reached
      none_failed

-- ===== src/Tests/Granting.antt =====
-- The grant that the sample policy makes, written out.
use rust4eska.Prelude.{refl, text, some, inl, here}
use rust4eska.Models.{Verb, Resource}
use rust4eska.Backend.Memory.{memory, lookup, policy, binding}
use rust4eska.Store.Rbac.Spec.{Granted, wildcard}
use rust4eska.Tests.Sample.{table, p1, b1, read_prod}

pub granted : Granted memory table (text "alice") Verb.get Resource.vault (some (text "prod-db"))
unfolding lookup
granted = record {
  key = text "b1";
  binding = b1;
  policy = p1;
  rule = read_prod;
  bound = record { blob = binding b1; stored = refl; decodes = refl };
  for_subject = refl;
  defined = record { blob = policy p1; stored = refl; decodes = refl };
  rule_of = here;
  allows = record {
    verb_listed = inl here;
    resource_listed = inl here;
    names = (text "prod-*", here, wildcard (text "prod-") (text "db") refl refl);
  };
}

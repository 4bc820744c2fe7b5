-- ===== src/Byoc/Run.antt =====
-- RunByoc: the arguments, the executable, the subprocess, and the directories that they need.
pub mod Cleanup
use terraform_provider_redpa.Base.{ℕ, Option, none, some, ◌++◌, Text, codes, Dict}
use terraform_provider_redpa.Errors.{GoError, plain_error, Reply, reply, refused}
use terraform_provider_redpa.Lookup.{Wrapping, quote}
use terraform_provider_redpa.Byoc.Client.{ByocClient}
use terraform_provider_redpa.Byoc.Arguments.{
  Disk, CloudCluster, Outside, Setup, clean_up, make_dir, generate_byoc_args_and_env,
}

-- runSubprocess from the start of the command on: an error of the context comes before the
-- command's own.
abbrev or_context : Outside → GoError → Option GoError
or_context out err = elim out.context_error [ some cause ↦ some cause | none ↦ some err ]

abbrev ended : (with_logs : GoError → GoError) → Outside → Option GoError
ended with_logs out = elim out.stdout_pipe [
  | some err ↦ some err
  | none ↦ elim out.stderr_pipe [
    | some err ↦ some err
    | none ↦ elim out.start [
      | some err ↦ or_context out err
      | none ↦ elim out.wait [ none ↦ none | some err ↦ or_context out (with_logs err) ]
    ]
  ]
]

abbrev in_dir : (GoError → GoError) → Outside → Disk → Option GoError → Disk × Option GoError
in_dir with_logs out disk (some err) = (disk, some err)
in_dir with_logs out disk none = (clean_up (some disk.next) (make_dir disk), ended with_logs out)

-- `with_logs` puts the last lines that the command printed behind its error.
unfoldable pub run_subprocess : (GoError → GoError) → Outside → Disk → Disk × Option GoError
run_subprocess with_logs out disk = in_dir with_logs out disk out.run_mkdir

module _ (wr : Wrapping) where
  abbrev saved : Outside → Disk → Reply Text → Disk × Reply ℕ
  saved out disk (refused err) = (clean_up (some disk.next) (make_dir disk), refused err)
  saved out disk (reply raw) = elim out.pack_write [
    | some err ↦ (
      clean_up (some disk.next) (make_dir disk),
      refused (wr.wrap (codes "error writing byoc executable: ") err),
    )
    | none ↦ (make_dir disk, reply disk.next)
  ]

  abbrev placed : Outside → Disk → Option GoError → Disk × Reply ℕ
  placed out disk (some err) = (disk, refused err)
  placed out disk none = saved out disk out.download

  abbrev unpacked : Outside → CloudCluster → Disk → Reply (Option Text) → Disk × Reply ℕ
  unpacked out cluster disk (refused err) = (
    disk,
    refused (
        plain_error (
          codes "unable to request install pack details for "
          ++ (quote cluster.install_pack_version ++ (codes ": " ++ err.text)))),
  )
  unpacked out cluster disk (reply none) =
      (disk, refused (plain_error (codes "unable to find byoc plugin in install pack")))
  unpacked out cluster disk (reply (some location)) = placed out disk out.pack_mkdir

  abbrev with_pack : Outside → CloudCluster → Disk → Reply Text → Disk × Reply ℕ
  with_pack out cluster disk (refused err) =
      (disk, refused (wr.wrap (codes "acquire bearer token: ") err))
  with_pack out cluster disk (reply token) = unpacked out cluster disk out.install_pack

  -- getByocExecutable: the directory that holds the executable, and that its cleanup removes.
  unfoldable pub get_byoc_executable : Outside → CloudCluster → Disk → Disk × Reply ℕ
  get_byoc_executable out cluster disk = with_pack out cluster disk out.pack_token

  -- The deferred cleanups run in the opposite order.
  abbrev executed : (GoError → GoError) → Outside → Disk × Reply ℕ → Disk × Option GoError
  executed with_logs out (disk, refused err) = (disk, some err)
  executed with_logs out (disk, reply dir) = (
    clean_up (some dir) (run_subprocess with_logs out disk).0,
    (run_subprocess with_logs out disk).1,
  )

  abbrev prepared :
      (GoError → GoError) → Outside → CloudCluster → Disk × Reply Setup → Disk × Option GoError
  prepared with_logs out cluster (disk, refused err) = (disk, some err)
  prepared with_logs out cluster (disk, reply (args, env, dir)) = (
    clean_up dir (executed with_logs out (get_byoc_executable out cluster disk)).0,
    (executed with_logs out (get_byoc_executable out cluster disk)).1,
  )

  abbrev described :
      (GoError → GoError)
      → ByocClient
      → Dict Text
      → Outside
      → Text
      → Text
      → Disk
      → Reply CloudCluster
      → Disk × Option GoError
  described with_logs cl env out cluster_id verb disk (refused err) = (
    disk,
    some (
        wr.wrap (codes "unable to request cluster details for " ++ (quote cluster_id ++ codes ": "))
          err),
  )
  described with_logs cl env out cluster_id verb disk (reply cluster) =
      prepared with_logs out cluster (generate_byoc_args_and_env wr cl env out cluster verb disk)

  abbrev with_api :
      (GoError → GoError)
      → ByocClient
      → Dict Text
      → Outside
      → Text
      → Text
      → Disk
      → Reply Text
      → Disk × Option GoError
  with_api with_logs cl env out cluster_id verb disk (refused err) =
      (disk, some (wr.wrap (codes "acquire bearer token: ") err))
  with_api with_logs cl env out cluster_id verb disk (reply token) =
      described with_logs cl env out cluster_id verb disk out.cluster

  unfoldable pub run_byoc :
      (GoError → GoError)
      → ByocClient
      → Dict Text
      → Outside
      → (cluster_id verb : Text) → Disk
      → Disk × Option GoError
  unfolding get_byoc_executable run_subprocess
  run_byoc with_logs cl env out cluster_id verb disk =
      with_api with_logs cl env out cluster_id verb disk out.token

-- ===== src/Lib.antt =====
-- kg keeps a pool of machines that are reached over SSH and turns them into nodes of Kubernetes
-- clusters through Cluster API. This library models the core of it: the infrastructure provider that
-- claims a host for a machine, runs a bootstrap script on it and gives it back.
--
-- How the parts interact: the manager (cmd/manager) runs three controllers. The host controller probes
-- the hosts that nothing claims. The host machine controller claims an available host for a machine, in
-- inventory order, starts the bootstrap script on it through the provisioner, watches the outcome, and
-- resets and releases the host when the machine is deleted. The host cluster controller reports a
-- cluster with an endpoint as provisioned. The provisioner runs its commands over one SSH session, and
-- the SSH client decides which host key it trusts.
--
-- Files, and what each models:
--   Base            texts as lists of bytes, lists, results, Go's string functions and integers
--   Compare         three-way comparison and lexicographic order, for Inventory
--   Inventory       internal/inventory/order.go: CompareNames, SortHosts; Inventory/Numbers what a
--                   run of digits counts as
--   Api             api/v1alpha1: the objects, as records; Api/Maps a Go map of strings
--   Platform        Go errors by kind and message; calls that change a world and may fail, composed
--                   by `do`, and Platform/Fallible calls that only fail; the records Client (the
--                   Kubernetes API client), Library (controllerutil, meta and crypto functions) and
--                   Remote (a session, which internal/ssh implements)
--   Shell           shellQuote and dirOf; Shell/Quoting reads a shell word back
--   Ssh             internal/ssh/client.go: Dial, the host key callback, Run and WriteFile
--   Provisioner     internal/provisioner: Status, Start, preflight and Reset; Provisioner/Scripts
--                   has the two scripts, Provisioner/Probe the probe and the reading of its output,
--                   Provisioner/Recovery what Status means, Provisioner/Keeps what the calls of Start
--                   leave alone and Provisioner/Start an interrupted Start
--   Config          internal/config/types.go; Config/Defaults ApplyDefaults, and Config/Checks
--                   and Config/Validate the Validate of internal/config/load.go; CIDRs and files
--                   are a parameter
--   Yaml            what yaml.Unmarshal reads: values, fields, paths into them
--   Cloudinit       internal/cloudinit: Cloudinit/Script the renderer of cloudinit.go, and for
--                   kubeadm.go Cloudinit/Documents the documents of the files and Cloudinit/Kubeadm
--                   what is written into one document; the record Codec (Platform/Codec) stands for
--                   YAML, base64, gzip and the printing of a Go value
--   Render          internal/render: the objects of a configuration (Render/Objects their types,
--                   Render/Texts the commands and the kube-vip manifest), Render/Machines the
--                   control plane and the pools, Render/Secrets the secrets that hosts share, and
--                   Render; Render/Provided what a host refers to
--   Registry        internal/registry/registry.go: the records of clusters, one file each; below it
--                   Outcome and Atomic (what Put leaves behind), Roundtrip, Valid and Sorted;
--                   Platform/Files has the calls of package os, and what its documentation says of
--                   them as laws
--   Cli             internal/cli: registry.go, name.go and the paths of root.go; Cli/Refused and
--                   Cli/Selected what these refuse and select; Cli/Summary the counts of cluster.go,
--                   Cli/Pivot and Cli/Pivot/Eject the eject command of pivot.go
--   Controller      internal/controller/helpers.go; below it Connection (connection.go), Host
--                   (host_controller.go), Cluster (hostcluster_controller.go), and for
--                   hostmachine_controller.go Claim (claimHost), Bootstrap (reconcileNormal and
--                   runBootstrap), Release (reconcileDelete) and Machine (Reconcile and the
--                   watches); Bootstrap/Report has what these write into a machine, and
--                   Bootstrap/Rendered the bootstrap with the renderer of Cloudinit
--   Examples        a small server and machine on which every theorem with hypotheses is applied
--
-- State and calls: a handler of the source works on an object in memory, calls the API server and the
-- host, and patches the object when it returns. Here it takes the object and a world, and returns the
-- object, its result (the seconds after which to look again, or an error) and the world; the deferred
-- patch is a call after it. A call that fails leaves the world as the call left it. Of the world nothing
-- is known: what a theorem needs of the API server, of the remote shell or of the SSH handshake is a
-- record of laws among its hypotheses (Stores, Optimistic, Shell, Commands, ChecksKeys, IsFileSystem),
-- and the examples give an instance of each. An update of a host returns the object that the server stored, as client-go writes
-- it back into the object that was passed.
--
-- Bounds and fuel: CompareNames consumes a run of its first name in each round, so the length of that
-- name is enough fuel for its loop; wrapBase64 takes 76 bytes off a text in each round, so the length
-- of the text is. Every other loop is over a list. A checksum is a text, SHA-256 is a
-- function of the Library; the sizes and ports of the API objects are natural numbers, the int32 fields
-- of a configuration are integers whose sums wrap around, and the integers that a host prints are read
-- by strconv's rules with its bounds of 32 and 64 bits.
--
-- Not modelled: logging and the messages of commands, the closing of sessions, deadlines (a deadline is
-- an error of a call), the registration of controllers and watches, the commands other than eject and
-- cluster forget, the calls of external programs (kind, clusterctl, the transfer of images) and the
-- loading of a configuration file. The bootstrap takes the renderer of its data as an argument, and
-- Controller/Bootstrap/Rendered fills it with that of Cloudinit.
pub mod Base
pub mod Compare
pub mod Inventory
pub mod Api
pub mod Platform
pub mod Shell
pub mod Ssh
pub mod Provisioner
pub mod Registry
pub mod Config
pub mod Render
pub mod Cli
pub mod Cloudinit
pub mod Yaml
pub mod Controller
pub mod Examples
